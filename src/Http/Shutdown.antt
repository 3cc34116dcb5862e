-- ===== src/Http/Shutdown.antt =====
-- A graceful shutdown (src/socket.rs) that times out leaves the socket open, and src/http.rs
-- panics when it listens on it again.
use mathlib.Core.Path.{subst}
use ra6m3_rtic.Prelude.{
  ◌≡◌, ◌≢◌, ◌∙◌, ◌⊎◌, refl, sym, Bool, true, false, Option, none, some, List, ◌∷◌, Result, ok, err,
  inl, inr,
}
use ra6m3_rtic.Smoltcp.{Smoltcp, State, ListenError}
use ra6m3_rtic.PollShare.{World, M, ◌>>=◌, >>=_lem}
use ra6m3_rtic.Future.{Poll, ready, pending, Schedule, await}
use ra6m3_rtic.Future.Laws.{Progress, Keeps, Waits, await-Waits}
use ra6m3_rtic.Socket.Types.{Error, SocketInner, TcpSocket}
use ra6m3_rtic.Socket.Inner.{poll_flush, flush_step}
use ra6m3_rtic.Socket.Tcp.{close}
use ra6m3_rtic.Socket.Io.{
  ServeError, read_timeout, poll_drain, after_discard, after_flush, after_drain, shutdown,
}
use ra6m3_rtic.Socket.Frame.{SetLaws, Holds, settled, on_socket_lem, settled-Holds}
use ra6m3_rtic.Socket.Flush.{flush_step-cases}
use ra6m3_rtic.Socket.Laws.{WakerLaws}
use ra6m3_rtic.Http.Task.{Connection, http}
use ra6m3_rtic.Http.Rounds.{http_refused}

module _ (smol : Smoltcp) where
  -- The socket that the provider has is open, and it does not listen.
  abbrev pub Open : SocketInner smol → World smol → Type 0
  Open io w =
      (s : smol.Socket) × Holds smol io s w
      × (smol.is_open s ≡ true)
      × (smol.state s ≢ State.listen)

  -- The client keeps its half open: what picoserve reads to the end never ends.
  abbrev pub KeepsTalking :
      {X : Type 0} → SocketInner smol → (X → M smol (Poll (Result (Unit {0}) Error) × X)) → Type 0
  KeepsTalking {X} io discard =
      (x : X) (w : World smol)
      → Open io w
      → (x' : X) × (w' : World smol) × (discard x w ≡ some ((pending, x'), w')) × Open io w'

  -- The shutdown has returned `ReadTimeout`, with the socket still open.
  abbrev pub GivesUp :
      SocketInner smol → Option (Result (Unit {0}) ServeError × World smol) → Type 0
  GivesUp io none = ⊥
  GivesUp io (some (r, w)) = (r ≡ err read_timeout) × Open io w

  module _ (sets : SetLaws smol) (wakers : WakerLaws smol) (io : SocketInner smol) (cx : smol.Waker)
      {X : Type 0} (discard : X → M smol (Poll (Result (Unit {0}) Error) × X))
      (talks : KeepsTalking io discard) where
    flush-Open :
        (w : World smol)
        → Open io w
        → (p : Poll (Result (Unit {0}) Error)) × (w' : World smol) × (poll_flush smol io cx w
            ≡ some (p, w'))
          × ((p ≡ pending) ⊎ (p ≡ ready (ok tt)))
          × Open io w'
    unfolding poll_flush
    flush-Open w (s, h, o, quiet) = elim (flush_step-cases smol cx s) [
      | inl done ↦ (
        ready (ok tt),
        settled smol io s w.net.iface w,
        rw (on_socket_lem smol io (flush_step smol cx) w h) (rw done refl),
        inr refl,
        (s, settled-Holds smol sets io s w.net.iface w h, o, quiet),
      )
      | inr waits ↦ (
        pending,
        settled smol io (smol.register_send_waker cx s) w.net.iface w,
        rw (on_socket_lem smol io (flush_step smol cx) w h) (rw waits refl),
        inl refl,
        (
          smol.register_send_waker cx s,
          settled-Holds smol sets io (smol.register_send_waker cx s) w.net.iface w h,
          wakers.send_waker_is_open cx s ∙ o,
          λ l. quiet (sym (wakers.send_waker_state cx s) ∙ l),
        ),
      )
    ]

    flushed :
        (x : X) (p : Poll (Result (Unit {0}) Error)) (w : World smol)
        → (p ≡ pending) ⊎ (p ≡ ready (ok tt))
        → Open io w
        → Progress (λ _ w. Open io w) (λ _ _ _. ⊥) (after_flush smol x (some (p, w)))
    flushed x (ready (ok _)) w a o = o
    flushed x (ready (err e)) w (inl a) o = cc
    flushed x (ready (err e)) w (inr a) o = cc
    flushed x pending w a o = o

    drain-Progress :
        (x : X × Bool) (w : World smol)
        → Open io w
        → Progress (λ _ w. Open io w) (λ _ _ _. ⊥) (poll_drain smol io cx discard x w)
    unfolding poll_drain
    drain-Progress (x, true) w o =
        let (x', w', e, o') = talks x w o in
        subst (λ r. Progress (λ _ w. Open io w) (λ _ _ _. ⊥) (after_discard smol io cx true r))
          (sym e) o'
    drain-Progress (x, false) w o =
        let (x', w', e, o') = talks x w o in
        let (p, w'', e', answer, o'') = flush-Open w' o' in
        subst (λ r. Progress (λ _ w. Open io w) (λ _ _ _. ⊥) (after_discard smol io cx false r))
          (sym e)
          (subst (λ r. Progress (λ _ w. Open io w) (λ _ _ _. ⊥) (after_flush smol x' r)) (sym e')
            (flushed x' p w'' answer o''))

    drain-GivesUp :
        (writing : Schedule smol)
        (r : Option ((Option (Result (Unit {0}) ServeError) × (X × Bool)) × World smol))
        → Waits (λ _ w. Open io w) (λ _ _ _. ⊥) r
        → GivesUp io
            (elim r [ none ↦ none | some ((r', _), w') ↦ after_drain smol io cx writing r' w' ])
    drain-GivesUp writing none h = h
    drain-GivesUp writing (some ((none, _), w)) h = (refl, h)
    drain-GivesUp writing (some ((some a, _), w)) h = absurd h

  -- If the client keeps its half open until the read timeout, and smoltcp's `close` and the changes
  -- between the polls leave the socket open and not listening, `shutdown` returns `ReadTimeout`
  -- with the socket still open: nothing aborts it.
  pub shutdown-GivesUp :
      {X : Type 0}
      → SetLaws smol
      → WakerLaws smol
      → (sock : TcpSocket smol) (cx : smol.Waker)
      → (discard : X → M smol (Poll (Result (Unit {0}) Error) × X)) (x : X)
      → (reading writing : Schedule smol) (w : World smol) (s : smol.Socket)
      → KeepsTalking sock.io discard
      → Keeps (λ (_ : X × Bool) w. Open sock.io w) reading
      → Holds smol sock.io s w
      → smol.is_open (smol.close s) ≡ true
      → smol.state (smol.close s) ≢ State.listen
      → GivesUp sock.io (shutdown smol sock cx discard x reading writing w)
  unfolding shutdown
  shutdown-GivesUp sets wakers sock cx discard x reading writing w s talks keeps h o quiet =
      let io = sock.io in
      let w' : World smol = settled smol io (smol.close s) w.net.iface w in
      subst (GivesUp io)
        (sym (
          >>=_lem (close smol sock)
            (λ _. await (poll_drain smol io cx discard) (x, false) reading >>= λ r.
              after_drain smol io cx writing r.0)
            w (on_socket_lem smol io (λ s. (tt, smol.close s)) w h)))
        (drain-GivesUp sets wakers io cx discard talks writing _ (
          await-Waits (λ _ w. Open io w) (λ _ _ _. ⊥) (poll_drain smol io cx discard) (x, false)
            reading w' (drain-Progress sets wakers io cx discard talks) keeps
            (smol.close s, settled-Holds smol sets io (smol.close s) w.net.iface w h, o, quiet)))

  -- smoltcp's `listen` refuses an open socket that does not listen already.
  abbrev pub ListenLaw : Type 0
  ListenLaw =
      (port : smol.IpListenEndpoint) (s : smol.Socket)
      → smol.is_open s ≡ true
      → smol.state s ≢ State.listen
      → (smol.listen_on port s).0 ≡ err ListenError.invalid_state

  given_up :
      (handle : smol.SocketHandle) (port : smol.IpListenEndpoint) (cx : smol.Waker)
      (c : Connection smol) (cs : List (Connection smol))
      → ListenLaw
      → (r : Option (Result (Unit {0}) ServeError × World smol))
      → GivesUp (record { handle = handle }) r
      → (elim r [ none ↦ none | some (_, w') ↦ http smol handle port cx (c ∷ cs) w' ]) ≡ none
  given_up handle port cx c cs refuses none h = refl
  given_up handle port cx c cs refuses (some (r, w)) (e, (s, h, o, quiet)) =
      http_refused smol port handle cx c cs w s ListenError.invalid_state h (refuses port s o quiet)

  -- The HTTP task panics in the round after a `shutdown` that timed out on a client that kept its
  -- half open: its loop listens on the socket, still open and not listening, which smoltcp refuses,
  -- and unwraps the error. The changes between the polls leave the socket open and not listening.
  pub http_after_shutdown_panics :
      {X : Type 0}
      → SetLaws smol
      → WakerLaws smol
      → ListenLaw
      → (handle : smol.SocketHandle) (port : smol.IpListenEndpoint) (cx : smol.Waker)
      → (discard : X → M smol (Poll (Result (Unit {0}) Error) × X)) (x : X)
      → (reading writing : Schedule smol) (w : World smol) (s : smol.Socket)
      → (c : Connection smol) (cs : List (Connection smol))
      → KeepsTalking (record { handle = handle }) discard
      → Keeps (λ (_ : X × Bool) w. Open (record { handle = handle }) w) reading
      → Holds smol (record { handle = handle }) s w
      → smol.is_open (smol.close s) ≡ true
      → smol.state (smol.close s) ≢ State.listen
      → (shutdown smol (record { io = record { handle = handle } }) cx discard x reading writing
            >>= λ _. http smol handle port cx (c ∷ cs))
          w
        ≡ none
  http_after_shutdown_panics sets wakers refuses handle port cx discard x reading writing w s c cs
        talks keeps h o quiet =
      given_up handle port cx c cs refuses _ (
        shutdown-GivesUp sets wakers (record { io = record { handle = handle } }) cx discard x
          reading writing w s talks keeps h o quiet)
