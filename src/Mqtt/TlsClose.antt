-- ===== src/Mqtt/TlsClose.antt =====
-- How the TLS transport of src/mqtt/tls_socket.rs is closed, and what embedded_tls promises.
use mathlib.Core.Path.{subst}
use ra6m3_rtic.Prelude.{ℕ, ◌≡◌, refl, sym, Option, none, some, List, Result, ok, err}
use ra6m3_rtic.Smoltcp.{Smoltcp}
use ra6m3_rtic.PollShare.{World, >>=_lem}
use ra6m3_rtic.Future.{Schedule}
use ra6m3_rtic.Future.Laws.{Keeps}
use ra6m3_rtic.Socket.Types.{SocketInner}
use ra6m3_rtic.Socket.Tcp.{disconnect}
use ra6m3_rtic.Socket.Whole.{of_inner}
use ra6m3_rtic.Socket.Frame.{SetLaws}
use ra6m3_rtic.Socket.Lifecycle.{Held}
use ra6m3_rtic.Socket.Disconnect.{Shut, Disconnects, disconnect-Disconnects}
use ra6m3_rtic.Mqtt.Tls.{EmbeddedTls, TlsSocket, returning, after_close, close}

module _ (smol : Smoltcp) (tls : EmbeddedTls smol) where
  -- `close` gives back the transport that it was made of, with or without an error.
  abbrev pub GivesBack :
      SocketInner smol
      → Option (Result (SocketInner smol) (SocketInner smol × tls.TlsError))
      → Type 0
  GivesBack io none = Unit
  GivesBack io (some (ok io')) = io' ≡ io
  GivesBack io (some (err (io', e))) = io' ≡ io

  -- What embedded_tls documents: a connection owns the transport that it was made of, and uses it by
  -- the traits alone, which leave the socket in its place.
  pub record TlsLaws : Type 0 where
    pub delegate : tls.TlsConnection → SocketInner smol
    pub delegate_new : (io : SocketInner smol) (rx tx : List ℕ) → delegate (tls.new io rx tx) ≡ io
    pub open_keeps :
        (ctx : tls.TlsContext) (c : tls.TlsConnection) (cx : smol.Waker) (sched : Schedule smol)
        (w : World smol)
        → Keeps (λ (_ : Unit {0}) w. Held smol (delegate c) w) sched
        → Held smol (delegate c) w
        → (a : Option (Result (Unit {0}) tls.TlsError)) × (c' : tls.TlsConnection) × (w' : World
            smol)
          × (tls.tls_open ctx c cx sched w ≡ some ((a, c'), w'))
          × (delegate c' ≡ delegate c)
          × Held smol (delegate c) w'
    pub close_keeps :
        (c : tls.TlsConnection) (cx : smol.Waker) (sched : Schedule smol) (w : World smol)
        → Keeps (λ (_ : Unit {0}) w. Held smol (delegate c) w) sched
        → Held smol (delegate c) w
        → (a : Option (Result (SocketInner smol) (SocketInner smol × tls.TlsError))) × (w' : World
            smol)
          × (tls.close c cx sched w ≡ some (a, w'))
          × GivesBack (delegate c) a
          × Held smol (delegate c) w'

  -- How `close` ends, by the answer of embedded_tls: pending, or with the same result and a socket
  -- that is not open any more.
  abbrev pub Closes :
      SocketInner smol
      → Option (Result (SocketInner smol) (SocketInner smol × tls.TlsError))
      → Option (Option (Result (Unit {0}) tls.TlsError) × World smol)
      → Type 0
  Closes io a none = ⊥
  Closes io a (some (none, w)) = Held smol io w
  Closes io none (some (some r, w)) = ⊥
  Closes io (some (ok _)) (some (some r, w)) = (r ≡ ok tt) × Shut smol io w
  Closes io (some (err (_, e))) (some (some r, w)) = (r ≡ err e) × Shut smol io w

  module _ (sets : SetLaws smol) (io : SocketInner smol) (cx : smol.Waker) (leaving : Schedule smol)
      (keeps : Keeps (λ (_ : Unit {0}) w. Held smol io w) leaving) where
    ok-Closes :
        (r : Option (Option (Unit {0}) × World smol))
        → Disconnects smol (of_inner io) r
        → Closes io
            (some (ok io))
            (elim r [ none ↦ none | some (d, w) ↦ some (returning smol tls (ok tt) d, w) ])
    unfolding of_inner
    ok-Closes none h = h
    ok-Closes (some (none, w)) h = h
    ok-Closes (some (some _, w)) h = (refl, h)

    err-Closes :
        (e : tls.TlsError) (r : Option (Option (Unit {0}) × World smol))
        → Disconnects smol (of_inner io) r
        → Closes io
            (some (err (io, e)))
            (elim r [ none ↦ none | some (d, w) ↦ some (returning smol tls (err e) d, w) ])
    unfolding of_inner
    err-Closes e none h = h
    err-Closes e (some (none, w)) h = h
    err-Closes e (some (some _, w)) h = (refl, h)

    disconnected :
        (w : World smol)
        → Held smol io w
        → Disconnects smol (of_inner io) (disconnect smol (of_inner io) cx leaving w)
    unfolding of_inner
    disconnected w h = disconnect-Disconnects smol sets (of_inner io) cx leaving w keeps h

    after_close-Closes :
        (a : Option (Result (SocketInner smol) (SocketInner smol × tls.TlsError))) (w : World smol)
        → GivesBack io a
        → Held smol io w
        → Closes io a (after_close smol tls cx leaving a w)
    after_close-Closes none w same h = h
    after_close-Closes (some (ok io')) w same h =
        subst (λ j. Closes io (some (ok j)) (after_close smol tls cx leaving (some (ok j)) w))
          (sym same) (ok-Closes (disconnect smol (of_inner io) cx leaving w) (disconnected w h))
    after_close-Closes (some (err (io', e))) w same h =
        subst
          (λ j.
            Closes io (some (err (j, e))) (after_close smol tls cx leaving (some (err (j, e))) w))
          (sym same) (err-Closes e (disconnect smol (of_inner io) cx leaving w) (disconnected w h))

  -- `close` does not panic. Whatever embedded_tls answers, it then waits until the socket is not
  -- open any more before it returns, and it returns the success or the error of embedded_tls. The
  -- changes between the polls keep the socket in place.
  pub close-Closes :
      SetLaws smol
      → (laws : TlsLaws) (t : TlsSocket tls) (cx : smol.Waker) (closing leaving : Schedule smol)
      → (w : World smol)
      → Keeps (λ (_ : Unit {0}) w. Held smol (laws.delegate t.connection) w) closing
      → Keeps (λ (_ : Unit {0}) w. Held smol (laws.delegate t.connection) w) leaving
      → Held smol (laws.delegate t.connection) w
      → (a : Option (Result (SocketInner smol) (SocketInner smol × tls.TlsError))) × (w' : World
          smol)
        × (tls.close t.connection cx closing w ≡ some (a, w'))
        × Closes (laws.delegate t.connection) a (close smol tls t cx closing leaving w)
  unfolding close
  close-Closes sets laws t cx closing leaving w keeps stays h =
      let (a, w', e, same, h') = laws.close_keeps t.connection cx closing w keeps h in
      let io = laws.delegate t.connection in
      (
        a,
        w',
        e,
        subst (Closes io a)
            (sym
              (>>=_lem (tls.close t.connection cx closing) (after_close smol tls cx leaving) w e))
            (after_close-Closes sets io cx leaving stays a w' same h'),
      )
