-- ===== src/Socket/Lifecycle.antt =====
-- How `connect`, `accept` and `disconnect` of src/socket.rs end.
use mathlib.Core.Path.{subst}
use ra6m3_rtic.Prelude.{
  ℕ, ◌≡◌, ◌≢◌, ◌∙◌, ◌⊎◌, refl, sym, Option, none, some, Result, ok, err, inl, inr,
}
use ra6m3_rtic.Smoltcp.{Smoltcp, State, ListenError}
use ra6m3_rtic.Smoltcp
use ra6m3_rtic.PollShare.{World}
use ra6m3_rtic.Future.{Poll, ready, pending, Schedule, stateless}
use ra6m3_rtic.Future.Laws.{Progress, Waits, Keeps, await-Waits}
use ra6m3_rtic.Socket.Types.{ConnectError, SocketInner, TcpSocket}
use ra6m3_rtic.Socket.Tcp.{
  connect, poll_connect, connect_progress, connect_refused, start_connect, start_step,
  after_connect,
}
use ra6m3_rtic.Socket.Frame.{
  SetLaws, Holds, settled, with_mut_lem, with_mut-stateless, settled-Holds,
}
use ra6m3_rtic.Socket.Laws.{WakerLaws, StateLaws}

-- The handshake is behind the socket, and the connection is not given up.
abbrev pub IsSynchronized : State → Type 0
IsSynchronized State.closed = ⊥
IsSynchronized State.listen = ⊥
IsSynchronized State.syn_sent = ⊥
IsSynchronized State.syn_received = ⊥
IsSynchronized State.time_wait = ⊥
IsSynchronized _ = Unit

module _ (smol : Smoltcp) where
  -- The provider is free, and it has the socket.
  abbrev pub Held : SocketInner smol → World smol → Type 0
  Held io w = (s : smol.Socket) × Holds smol io s w

  -- The socket that the provider has is in a state of `P`.
  abbrev pub InState : (State → Type 0) → SocketInner smol → World smol → Type 0
  InState P io w = (s : smol.Socket) × Holds smol io s w × P (smol.state s)

  -- What a connecting socket never is; the network does not put it there.
  abbrev pub Connecting : SocketInner smol → World smol → Type 0
  Connecting io w = InState (λ st. st ≢ State.listen) io w

  -- The answers of `connect`.
  abbrev pub HasConnected : SocketInner smol → Result (Unit {0}) ConnectError → World smol → Type 0
  HasConnected io (ok _) w = InState IsSynchronized io w
  HasConnected io (err e) w =
      (e ≡ ConnectError.connection_reset)
      × InState (λ st. (st ≡ State.closed) ⊎ (st ≡ State.time_wait)) io w

  module _ (sets : SetLaws smol) (wakers : WakerLaws smol) (io : SocketInner smol)
      (cx : smol.Waker) where
    connect_progress-cases :
        (st : State) (s : smol.Socket) (i : smol.Interface)
        → st ≢ State.listen
        → (IsSynchronized st × (connect_progress smol cx st s i ≡ some (ready (ok tt), s, i)))
          ⊎ (((st ≡ State.closed) ⊎ (st ≡ State.time_wait))
              × (connect_progress smol cx st s i
                  ≡ some (ready (err ConnectError.connection_reset), s, i)))
          ⊎ ((st ≢ State.listen)
              × (connect_progress smol cx st s i
                  ≡ some (pending, smol.register_send_waker cx s, i)))
    connect_progress-cases State.closed s i ne = inr (inl (inl refl, refl))
    connect_progress-cases State.time_wait s i ne = inr (inl (inr refl, refl))
    connect_progress-cases State.listen s i ne = absurd (ne refl)
    connect_progress-cases State.syn_sent s i ne = inr (inr (ne, refl))
    connect_progress-cases State.syn_received s i ne = inr (inr (ne, refl))
    connect_progress-cases _ s i ne = inl (tt, refl)

    poll_connect_lem :
        (x : Unit {0}) (w : World smol) {s t : smol.Socket}
        {p : Poll (Result (Unit {0}) ConnectError)}
        → Holds smol io s w
        → connect_progress smol cx (smol.state s) s w.net.iface ≡ some (p, t, w.net.iface)
        → stateless (poll_connect smol io cx) x w ≡ some ((p, x), settled smol io t w.net.iface w)
    unfolding poll_connect
    poll_connect_lem x w h e =
        with_mut-stateless smol io (λ s i. connect_progress smol cx (smol.state s) s i) x w h e

    poll_connect-Progress :
        (x : Unit {0}) (w : World smol)
        → Connecting io w
        → Progress
            (λ _ w. Connecting io w)
            (λ r _ w. HasConnected io r w)
            (stateless (poll_connect smol io cx) x w)
    poll_connect-Progress x w (s, h, ne) =
        elim (connect_progress-cases (smol.state s) s w.net.iface ne) [
          | inl (sync, e) ↦
              subst (Progress (λ _ w. Connecting io w) (λ r _ w. HasConnected io r w))
                (sym (poll_connect_lem x w h e))
                (s, settled-Holds smol sets io s w.net.iface w h, sync)
          | inr (inl (over, e)) ↦
              subst (Progress (λ _ w. Connecting io w) (λ r _ w. HasConnected io r w))
                (sym (poll_connect_lem x w h e))
                (refl, (s, settled-Holds smol sets io s w.net.iface w h, over))
          | inr (inr (ne', e)) ↦
              let t = smol.register_send_waker cx s in
              subst (Progress (λ _ w. Connecting io w) (λ r _ w. HasConnected io r w))
                (sym (poll_connect_lem x w h e))
                (
                  t,
                  settled-Holds smol sets io t w.net.iface w h,
                  λ l. ne' (sym (wakers.send_waker_state cx s) ∙ l),
                )
        ]

  -- How a call of `connect` ends, where `r` is what smoltcp's `connect` returned: it is still
  -- waiting for the peer, or it returns. An error is the reset of the connection, or `r`'s.
  abbrev pub Connects :
      Result (Unit {0}) Smoltcp.ConnectError
      → TcpSocket smol
      → Option (Option (Result (Unit {0}) ConnectError) × World smol)
      → Type 0
  Connects r sock none = ⊥
  Connects r sock (some (none, w)) = Connecting sock.io w
  Connects r sock (some (some (ok _), w)) = InState IsSynchronized sock.io w
  Connects r sock (some (some (err e), w)) =
      ((e ≡ ConnectError.connection_reset)
        ⊎ ((refusal : Smoltcp.ConnectError) × (r ≡ err refusal) × (e ≡ connect_refused refusal)))
      × Held sock.io w

  connect_result :
      (c : Result (Unit {0}) Smoltcp.ConnectError) (sock : TcpSocket smol)
      (r : Option ((Option (Result (Unit {0}) ConnectError) × Unit {0}) × World smol))
      → Waits (λ _ w. Connecting sock.io w) (λ r _ w. HasConnected sock.io r w) r
      → Connects c sock (elim r [ none ↦ none | some ((r', _), w') ↦ some (r', w') ])
  connect_result c sock none h = h
  connect_result c sock (some ((none, _), w)) h = h
  connect_result c sock (some ((some (ok _), _), w)) h = h
  connect_result c sock (some ((some (err e), _), w)) (reset, (s, h, over)) = (inl reset, (s, h))

  after_connect-Connects :
      SetLaws smol
      → WakerLaws smol
      → (sock : TcpSocket smol) (cx : smol.Waker) (sched : Schedule smol)
      → Keeps (λ (_ : Unit {0}) w. Connecting sock.io w) sched
      → (r : Result (Unit {0}) Smoltcp.ConnectError) (w : World smol) → Held sock.io w
      → (r ≡ ok tt → Connecting sock.io w)
      → Connects r sock (after_connect smol sock cx sched (some (r, w)))
  after_connect-Connects sets wakers sock cx sched keeps (err e) w held h =
      (inr (e, refl, refl), held)
  after_connect-Connects sets wakers sock cx sched keeps (ok u) w held h =
      connect_result (ok u) sock _ (
        await-Waits (λ _ w. Connecting sock.io w) (λ r _ w. HasConnected sock.io r w)
          (stateless (poll_connect smol sock.io cx)) tt sched w
          (poll_connect-Progress sets wakers sock.io cx) keeps (h refl))

  start_connect_lem :
      (io : SocketInner smol) (remote : smol.IpEndpoint) (local_port : ℕ) (w : World smol)
      {s : smol.Socket}
      → Holds smol io s w
      → let (r, i', s') = smol.connect w.net.iface remote local_port s in
        start_connect smol io remote local_port w ≡ some (r, settled smol io s' i' w)
  unfolding start_connect
  start_connect_lem io remote local_port w h =
      with_mut_lem smol io (start_step smol remote local_port) w h refl

  -- `connect` never reaches its `unreachable!()`. If it answers `Ok` the socket is past the
  -- handshake; its errors are `ConnectionReset` and the refusal of smoltcp's `connect`, so it never
  -- answers `TimedOut`; with an error the socket is still in place. smoltcp's `connect` puts the socket in SYN-SENT, and the changes between
  -- the polls never make it listen.
  pub connect-Connects :
      SetLaws smol
      → WakerLaws smol
      → StateLaws smol
      → (sock : TcpSocket smol) (remote : smol.IpEndpoint) (local_port : ℕ) (cx : smol.Waker)
      → (sched : Schedule smol) (w : World smol) {s : smol.Socket}
      → Keeps (λ (_ : Unit {0}) w. Connecting sock.io w) sched
      → Holds smol sock.io s w
      → Connects
          (smol.connect w.net.iface remote local_port s).0
          sock
          (connect smol sock remote local_port cx sched w)
  unfolding connect
  connect-Connects sets wakers states sock remote local_port cx sched w {s} keeps h =
      let (r, i', s') = smol.connect w.net.iface remote local_port s in
      subst (λ o. Connects r sock (after_connect smol sock cx sched o))
        (sym (start_connect_lem sock.io remote local_port w h))
        (after_connect-Connects sets wakers sock cx sched keeps r (settled smol sock.io s' i' w)
          (s', settled-Holds smol sets sock.io s' i' w h)
          (λ opened. (
            s',
            settled-Holds smol sets sock.io s' i' w h,
            λ l. cc (states.connect_state w.net.iface remote local_port s opened),
          )))
