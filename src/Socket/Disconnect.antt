-- ===== src/Socket/Disconnect.antt =====
-- How `disconnect` of src/socket.rs ends.
use mathlib.Core.Path.{subst}
use ra6m3_rtic.Prelude.{
  ◌≡◌, ◌∙◌, refl, sym, true, false, Option, none, some, Bool-cases, inl, inr, ◌∷◌, ◌++◌,
}
use ra6m3_rtic.Smoltcp.{Smoltcp}
use ra6m3_rtic.PollShare.{World, pure, ◌>>=◌, >>=_lem}
use ra6m3_rtic.Future.{Poll, ready, pending, Schedule, stateless, await}
use ra6m3_rtic.Future.Laws.{
  Progress, Waits, Keeps, await-Waits, Answers, Answered, Leads, await-Answered,
}
use ra6m3_rtic.Socket.Types.{SocketInner, TcpSocket}
use ra6m3_rtic.Socket.Access.{with}
use ra6m3_rtic.Socket.Tcp.{disconnect, poll_disconnect, after_test, update}
use ra6m3_rtic.Socket.Frame.{SetLaws, Holds, settled, with_lem, on_socket_lem, settled-Holds}
use ra6m3_rtic.Socket.Lifecycle.{Held}

module _ (smol : Smoltcp) where
  -- The socket that the provider has is neither open nor half open.
  abbrev pub Shut : SocketInner smol → World smol → Type 0
  Shut io w = (s : smol.Socket) × Holds smol io s w × (smol.is_open s ≡ false)

  -- The waker of the task is the one that the socket wakes: `register_recv_waker` was the last
  -- operation on it.
  abbrev pub Registered : SocketInner smol → smol.Waker → World smol → Type 0
  Registered io cx w = (s : smol.Socket) × Holds smol io (smol.register_recv_waker cx s) w

  -- How a call of `disconnect` ends.
  abbrev pub Disconnects : TcpSocket smol → Option (Option (Unit {0}) × World smol) → Type 0
  Disconnects sock none = ⊥
  Disconnects sock (some (none, w)) = Held smol sock.io w
  Disconnects sock (some (some _, w)) = Shut sock.io w

  abbrev pub Returns : Option (Option (Unit {0}) × World smol) → Type 0
  Returns none = ⊥
  Returns (some (none, w)) = ⊥
  Returns (some (some _, w)) = Unit

  module _ (sets : SetLaws smol) (sock : TcpSocket smol) (cx : smol.Waker) where
    poll_shut :
        (x : Unit {0}) (w : World smol) {s : smol.Socket}
        → Holds smol sock.io s w
        → smol.is_open s ≡ false
        → stateless (poll_disconnect smol sock cx) x w ≡ some ((ready tt, x), w)
    unfolding poll_disconnect
    poll_shut x w h e =
        >>=_lem (poll_disconnect smol sock cx) (λ r. pure (r, x)) w
          (>>=_lem (with smol sock.io (λ s _. smol.is_open s)) (after_test smol sock cx) w
              (with_lem smol sock.io (λ s _. smol.is_open s) w h)
            ∙ rw e refl)

    registers :
        (w : World smol) {s : smol.Socket}
        → Holds smol sock.io s w
        → after_test smol sock cx true w
          ≡ some (pending, settled smol sock.io (smol.register_recv_waker cx s) w.net.iface w)
    registers w h =
        >>=_lem (update smol sock (smol.register_recv_waker cx)) (λ _. pure pending) w
          (on_socket_lem smol sock.io (λ s. (tt, smol.register_recv_waker cx s)) w h)

    poll_open :
        (x : Unit {0}) (w : World smol) {s : smol.Socket}
        → Holds smol sock.io s w
        → smol.is_open s ≡ true
        → stateless (poll_disconnect smol sock cx) x w
          ≡ some ((pending, x), settled smol sock.io (smol.register_recv_waker cx s) w.net.iface w)
    unfolding poll_disconnect
    poll_open x w {s} h e =
        >>=_lem (poll_disconnect smol sock cx) (λ r. pure (r, x)) w
          (>>=_lem (with smol sock.io (λ s _. smol.is_open s)) (after_test smol sock cx) w
              (with_lem smol sock.io (λ s _. smol.is_open s) w h)
            ∙ rw e (registers w h))

    held_Progress :
        (r : Option ((Poll (Unit {0}) × Unit {0}) × World smol))
        → Progress (λ _ w. Registered sock.io cx w) (λ _ _ w. Shut sock.io w) r
        → Progress (λ _ w. Held smol sock.io w) (λ _ _ w. Shut sock.io w) r
    held_Progress none p = p
    held_Progress (some ((ready _, _), _)) p = p
    held_Progress (some ((pending, _), _)) (s, h) = (smol.register_recv_waker cx s, h)

    -- A poll that waits leaves the task's waker on the socket.
    poll_disconnect-Registers :
        (x : Unit {0}) (w : World smol)
        → Held smol sock.io w
        → Progress
            (λ _ w. Registered sock.io cx w)
            (λ _ _ w. Shut sock.io w)
            (stateless (poll_disconnect smol sock cx) x w)
    poll_disconnect-Registers x w (s, h) = elim (Bool-cases (smol.is_open s)) [
      | inl open_still ↦
          subst (Progress (λ _ w. Registered sock.io cx w) (λ _ _ w. Shut sock.io w))
            (sym (poll_open x w h open_still))
            (s, settled-Holds smol sets sock.io (smol.register_recv_waker cx s) w.net.iface w h)
      | inr shut ↦
          subst (Progress (λ _ w. Registered sock.io cx w) (λ _ _ w. Shut sock.io w))
            (sym (poll_shut x w h shut)) (s, h, shut)
    ]

    poll_disconnect-Progress :
        (x : Unit {0}) (w : World smol)
        → Held smol sock.io w
        → Progress
            (λ _ w. Held smol sock.io w)
            (λ _ _ w. Shut sock.io w)
            (stateless (poll_disconnect smol sock cx) x w)
    poll_disconnect-Progress x w held =
        held_Progress (stateless (poll_disconnect smol sock cx) x w)
          (poll_disconnect-Registers x w held)

    poll_disconnect-Answers :
        (x : Unit {0}) (w : World smol)
        → Shut sock.io w
        → Answers (stateless (poll_disconnect smol sock cx) x w)
    poll_disconnect-Answers x w (s, h, shut) = subst Answers (sym (poll_shut x w h shut)) tt

  disconnect_result :
      (sock : TcpSocket smol) (r : Option ((Option (Unit {0}) × Unit {0}) × World smol))
      → Waits (λ _ w. Held smol sock.io w) (λ _ _ w. Shut sock.io w) r
      → Disconnects sock (elim r [ none ↦ none | some ((r', _), w') ↦ some (r', w') ])
  disconnect_result sock none h = h
  disconnect_result sock (some ((none, _), w)) h = h
  disconnect_result sock (some ((some _, _), w)) h = h

  Answered-Returns :
      (r : Option ((Option (Unit {0}) × Unit {0}) × World smol))
      → Answered r
      → Returns (elim r [ none ↦ none | some ((r', _), w') ↦ some (r', w') ])
  Answered-Returns none h = h
  Answered-Returns (some ((none, _), w)) h = h
  Answered-Returns (some ((some _, _), w)) h = tt

  -- After the call of smoltcp's `close` the rest is the wait.
  disconnect_lem :
      (sock : TcpSocket smol) (cx : smol.Waker) (sched : Schedule smol) (w : World smol)
      {s : smol.Socket}
      → Holds smol sock.io s w
      → disconnect smol sock cx sched w
        ≡ elim (await
            (stateless (poll_disconnect smol sock cx))
            tt
            sched
            (settled smol sock.io (smol.close s) w.net.iface w)) [
              | none ↦ none
              | some ((r', _), w') ↦ some (r', w')
            ]
  unfolding disconnect
  disconnect_lem sock cx sched w {s} h =
      >>=_lem (update smol sock smol.close)
        (λ _. await (stateless (poll_disconnect smol sock cx)) tt sched >>= λ r. pure r.0) w
        (on_socket_lem smol sock.io (λ s. (tt, smol.close s)) w h)

  -- `disconnect` does not panic, and it returns only when the socket is not open any more. The
  -- changes between the polls keep the socket in place.
  pub disconnect-Disconnects :
      SetLaws smol
      → (sock : TcpSocket smol) (cx : smol.Waker) (sched : Schedule smol) (w : World smol)
      → Keeps (λ (_ : Unit {0}) w. Held smol sock.io w) sched
      → Held smol sock.io w
      → Disconnects sock (disconnect smol sock cx sched w)
  disconnect-Disconnects sets sock cx sched w keeps (s, h) =
      subst (Disconnects sock) (sym (disconnect_lem sock cx sched w h)) (
        disconnect_result sock _ (
          await-Waits (λ _ w. Held smol sock.io w) (λ _ _ w. Shut sock.io w)
            (stateless (poll_disconnect smol sock cx)) tt sched
            (settled smol sock.io (smol.close s) w.net.iface w)
            (poll_disconnect-Progress sets sock cx) keeps
            (smol.close s, settled-Holds smol sets sock.io (smol.close s) w.net.iface w h)))

  -- `disconnect` returns once the network has shut the socket: a change that does so ends the wait,
  -- whatever the schedule holds behind it. The network owes this only for a socket that the task has
  -- left with its own waker, since no other task is polled again; the changes before it keep such a
  -- socket in place, and may take the waker.
  pub disconnect-Returns :
      SetLaws smol
      → (sock : TcpSocket smol) (cx : smol.Waker) (sched : Schedule smol)
      → (shuts : World smol → World smol) (rest : Schedule smol) (w : World smol)
      → Leads (λ (_ : Unit {0}) w. Registered sock.io cx w) (λ _ w. Held smol sock.io w) sched
      → ((w : World smol) → Registered sock.io cx w → Shut sock.io (shuts w))
      → Held smol sock.io w
      → Returns (disconnect smol sock cx (sched ++ shuts ∷ rest) w)
  disconnect-Returns sets sock cx sched shuts rest w leads change (s, h) =
      subst Returns (sym (disconnect_lem sock cx (sched ++ shuts ∷ rest) w h)) (
        Answered-Returns _ (
          await-Answered (λ _ w. Held smol sock.io w) (λ _ w. Registered sock.io cx w)
            (λ _ w. Shut sock.io w) (λ _ _ w. Shut sock.io w)
            (stateless (poll_disconnect smol sock cx)) tt sched shuts rest
            (settled smol sock.io (smol.close s) w.net.iface w)
            (poll_disconnect-Registers sets sock cx) (poll_disconnect-Answers sets sock cx) leads
            (λ _ w. change w)
            (smol.close s, settled-Holds smol sets sock.io (smol.close s) w.net.iface w h)))
