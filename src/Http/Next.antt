-- ===== src/Http/Next.antt =====
-- The round of src/http.rs that follows a graceful shutdown which returned `Ok`.
use mathlib.Core.Path.{subst}
use ra6m3_rtic.Prelude.{ℕ, ◌≡◌, sym, Option, none, some, [], ◌∷◌, Result, ok, err}
use ra6m3_rtic.Smoltcp.{Smoltcp}
use ra6m3_rtic.PollShare.{World, M, pure, ◌>>=◌, >>=_lem}
use ra6m3_rtic.Future.{Poll, Schedule, stateless}
use ra6m3_rtic.Future.Laws.{Keeps, Progress, Waits, await-Waits}
use ra6m3_rtic.Socket.Types.{Error, AcceptError, SocketInner, TcpSocket}
use ra6m3_rtic.Socket.Tcp.{accept, poll_accept, after_listen}
use ra6m3_rtic.Socket.Io.{ServeError}
use ra6m3_rtic.Socket.Frame.{SetLaws, Holds, settled, settled-Holds}
use ra6m3_rtic.Socket.Laws.{WakerLaws}
use ra6m3_rtic.Socket.Lifecycle.{Held, InState}
use ra6m3_rtic.Socket.Closing.{IsAwaited, poll_accept-Progress}
use ra6m3_rtic.Http.Task.{Connection, log_served, after_accept, http}
use ra6m3_rtic.Http.Rounds.{Listenable, start_listen_lem}
use ra6m3_rtic.Http.Timer.{Time, TimeLaws}
use ra6m3_rtic.Http.Clock.{Timed}
use ra6m3_rtic.Http.Within.{Always}
use ra6m3_rtic.Http.Phases.{EndsBy, Read}
use ra6m3_rtic.Http.Closing.{Closed, timeouts, timed_shutdown}
use ra6m3_rtic.Http.Again.{is_closing, is_over, In, ReuseLaws, timed_shutdown-Listenable}

module _ (smol : Smoltcp) (port : smol.IpListenEndpoint) where
  -- How `accept` ends on a socket that can listen.
  abbrev pub Admits :
      TcpSocket smol → Option (Option (Result (Unit {0}) AcceptError) × World smol) → Type 0
  Admits sock none = ⊥
  Admits sock (some (none, w)) = Unit
  Admits sock (some (some (ok _), w)) = Held smol sock.io w
  Admits sock (some (some (err e), w)) = ⊥

  admit_result :
      (sock : TcpSocket smol)
      (r : Option ((Option (Result (Unit {0}) AcceptError) × Unit {0}) × World smol))
      → Waits
          (λ _ w. Held smol sock.io w)
          (λ r _ w. (r ≡ ok tt) × InState smol (λ st. ¬ IsAwaited st) sock.io w)
          r
      → Admits sock (elim r [ none ↦ none | some ((r', _), w') ↦ some (r', w') ])
  admit_result sock none h = h
  admit_result sock (some ((none, _), w)) h = tt
  admit_result sock (some ((some (ok _), _), w)) h = (h.1.0, h.1.1)
  admit_result sock (some ((some (err e), _), w)) h = cc (h.0)

  accept-Admits :
      SetLaws smol
      → (sock : TcpSocket smol) (cx : smol.Waker) (sched : Schedule smol) (w : World smol)
      → Keeps (λ (_ : Unit {0}) w. Held smol sock.io w) sched
      → Listenable smol port sock.io w
      → Admits sock (accept smol sock port cx sched w)
  unfolding accept
  accept-Admits sets sock cx sched w keeps (s, h, listens) =
      let s' = (smol.listen_on port s).1 in
      subst (λ o. Admits sock (after_listen smol sock cx sched o))
        (sym (start_listen_lem smol port sock.io w h))
        (rw listens (
          admit_result sock _ (
            await-Waits (λ _ w. Held smol sock.io w)
              (λ r _ w. (r ≡ ok tt) × InState smol (λ st. ¬ IsAwaited st) sock.io w)
              (stateless (poll_accept smol sock.io cx)) tt sched
              (settled smol sock.io s' w.net.iface w) (poll_accept-Progress smol sets sock.io cx)
              keeps (s', settled-Holds smol sets sock.io s' w.net.iface w h))))

  -- The server returns.
  abbrev pub Returns : SocketInner smol → M smol (Result ℕ ServeError) → Type 0
  Returns io serve =
      (w : World smol)
      → Held smol io w
      → (r : Result ℕ ServeError) × (w' : World smol) × (serve w ≡ some (r, w'))

  -- Does not panic.
  abbrev pub Runs : {A : Type 0} → Option (A × World smol) → Type 0
  Runs none = ⊥
  Runs (some _) = Unit

  -- One round of the loop, after its `accept`.
  served-Runs :
      (sock : TcpSocket smol) (serve : M smol (Result ℕ ServeError))
      (r : Option (Option (Result (Unit {0}) AcceptError) × World smol))
      → Returns sock.io serve
      → Admits sock r
      → Runs (after_accept smol serve (pure []) r)
  served-Runs sock serve none returns a = a
  served-Runs sock serve (some (none, w)) returns a = tt
  served-Runs sock serve (some (some (ok _), w)) returns held =
      let (r, w', e) = returns w held in
      subst Runs (sym (>>=_lem serve (λ r. pure [] >>= λ logs. pure (log_served r ∷ logs)) w e)) tt
  served-Runs sock serve (some (some (err e), w)) returns a = a

  round-Runs :
      SetLaws smol
      → (handle : smol.SocketHandle) (cx : smol.Waker) (c : Connection smol) (w : World smol)
      → Keeps (λ (_ : Unit {0}) w. Held smol (record { handle = handle }) w) c.waiting
      → Returns (record { handle = handle }) c.serve
      → Listenable smol port (record { handle = handle }) w
      → Runs (http smol handle port cx (c ∷ []) w)
  unfolding http
  round-Runs sets handle cx c w keeps returns l =
      served-Runs (record { io = record { handle = handle } }) c.serve _ returns
        (accept-Admits sets (record { io = record { handle = handle } }) cx c.waiting w keeps l)

  -- The shutdown has returned; the next round does not panic if it was with `Ok`.
  abbrev pub NextRuns :
      smol.SocketHandle → smol.Waker → Connection smol → Option (Closed smol × World smol) → Type 0
  NextRuns handle cx c none = ⊥
  NextRuns handle cx c (some ((none, at), w)) = ⊥
  NextRuns handle cx c (some ((some (ok _), at), w)) = Runs (http smol handle port cx (c ∷ []) w)
  NextRuns handle cx c (some ((some (err e), at), w)) = Held smol (record { handle = handle }) w

  EndsBy-NextRuns :
      (handle : smol.SocketHandle) (cx : smol.Waker) (c : Connection smol) (limit : ℕ)
      (o : Option (Closed smol × World smol))
      → ((w : World smol)
          → Listenable smol port (record { handle = handle }) w
          → Runs (http smol handle port cx (c ∷ []) w))
      → EndsBy
          (Listenable smol port (record { handle = handle }))
          (record { handle = handle })
          limit
          o
      → NextRuns handle cx c o
  EndsBy-NextRuns handle cx c limit none k h = h
  EndsBy-NextRuns handle cx c limit (some ((none, at), w)) k h = h
  EndsBy-NextRuns handle cx c limit (some ((some (ok _), at), w)) k h = k w h.0
  EndsBy-NextRuns handle cx c limit (some ((some (err e), at), w)) k h = h.0.1

  -- A connection is shut down under the timeouts of the HTTP task: `shutdown` returns, and if it
  -- returned `Ok`, the next round of the loop does not panic, neither in the `unwrap` behind `accept`
  -- nor later. With an error the socket is still in its place. The server of that round returns; the
  -- changes while `accept` waits keep the socket in place; once our half of the connection is closed
  -- it stays so, and so does the client's, of which picoserve reads the end; smoltcp, picoserve and
  -- embassy-time keep to their documentation.
  pub shutdown-NextRuns :
      {X : Type 0}
      → SetLaws smol
      → WakerLaws smol
      → ReuseLaws smol port
      → (time : Time smol) → TimeLaws time
      → (handle : smol.SocketHandle) (cx : smol.Waker)
      → (discard : X → M smol (Poll (Result (Unit {0}) Error) × X)) (x : X) (start : ℕ)
        (sched : Timed smol) (w : World smol) (s : smol.Socket)
      → ((x : X) (w : World smol)
          → In smol port is_closing (record { handle = handle }) w
          → Progress
              (λ _ w. In smol port is_closing (record { handle = handle }) w)
              (Read
                (In smol port is_closing (record { handle = handle }))
                (In smol port is_over (record { handle = handle })))
              (discard x w))
      → Always (In smol port is_closing (record { handle = handle })) sched
      → Always (In smol port is_over (record { handle = handle })) sched
      → Holds smol (record { handle = handle }) s w
      → (c : Connection smol)
      → Keeps (λ (_ : Unit {0}) w. Held smol (record { handle = handle }) w) c.waiting
      → Returns (record { handle = handle }) c.serve
      → NextRuns handle cx c (
          timed_shutdown time
            (timeouts time)
            (record { io = record { handle = handle } })
            cx
            discard
            x
            start
            sched
            w)
  shutdown-NextRuns sets wakers laws time times handle cx discard x start sched w s discards closes
        ends h c keeps returns =
      EndsBy-NextRuns handle cx c _ _ (λ w' l. round-Runs sets handle cx c w' keeps returns l)
        (timed_shutdown-Listenable smol port sets wakers laws time times
          (record { io = record { handle = handle } }) cx discard x start sched w s discards closes
          ends h)
