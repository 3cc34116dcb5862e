-- ===== src/Socket/Closing.antt =====
-- How `accept` and `disconnect` of src/socket.rs end.
use mathlib.Core.Path.{subst}
use ra6m3_rtic.Prelude.{◌≡◌, ◌≢◌, ◌⊎◌, refl, sym, Option, none, some, Result, ok, err, inl, inr}
use ra6m3_rtic.Smoltcp.{Smoltcp, State, ListenError}
use ra6m3_rtic.PollShare.{World}
use ra6m3_rtic.Future.{ready, pending, Schedule, stateless}
use ra6m3_rtic.Future.Laws.{Progress, Waits, Keeps, await-Waits}
use ra6m3_rtic.Socket.Types.{AcceptError, SocketInner, TcpSocket}
use ra6m3_rtic.Socket.Tcp.{
  accept, poll_accept, accept_progress, accept_refused, start_listen, after_listen,
}
use ra6m3_rtic.Socket.Frame.{SetLaws, settled, on_socket_lem, on_socket-stateless, settled-Holds}
use ra6m3_rtic.Socket.Lifecycle.{Held, InState}

-- The states in which `accept` goes on waiting.
abbrev pub IsAwaited : State → Type 0
IsAwaited State.listen = Unit
IsAwaited State.syn_sent = Unit
IsAwaited State.syn_received = Unit
IsAwaited _ = ⊥

module _ (smol : Smoltcp) where
  -- How a call of `accept` ends.
  abbrev pub Accepts :
      TcpSocket smol → Option (Option (Result (Unit {0}) AcceptError) × World smol) → Type 0
  Accepts sock none = ⊥
  Accepts sock (some (none, w)) = Held smol sock.io w
  Accepts sock (some (some (ok _), w)) = InState smol (λ st. ¬ IsAwaited st) sock.io w
  Accepts sock (some (some (err e), w)) = e ≢ AcceptError.connection_reset

  accept_progress-cases :
      (cx : smol.Waker) (st : State) (s : smol.Socket)
      → ((¬ IsAwaited st) × (accept_progress smol cx st s ≡ (ready (ok tt), s)))
        ⊎ (accept_progress smol cx st s ≡ (pending, smol.register_send_waker cx s))
  accept_progress-cases cx State.listen s = inr refl
  accept_progress-cases cx State.syn_sent s = inr refl
  accept_progress-cases cx State.syn_received s = inr refl
  accept_progress-cases cx _ s = inl (λ h. h, refl)

  module _ (sets : SetLaws smol) (io : SocketInner smol) (cx : smol.Waker) where
    pub poll_accept-Progress :
        (x : Unit {0}) (w : World smol)
        → Held smol io w
        → Progress
            (λ _ w. Held smol io w)
            (λ r _ w. (r ≡ ok tt) × InState smol (λ st. ¬ IsAwaited st) io w)
            (stateless (poll_accept smol io cx) x w)
    unfolding poll_accept
    poll_accept-Progress x w (s, h) =
        subst
          (Progress (λ _ w. Held smol io w)
            (λ r _ w. (r ≡ ok tt) × InState smol (λ st. ¬ IsAwaited st) io w))
          (sym (on_socket-stateless smol io (λ s. accept_progress smol cx (smol.state s) s) x w h))
          (elim (accept_progress-cases cx (smol.state s) s) [
            | inl (over, e) ↦ rw e (refl, (s, settled-Holds smol sets io s w.net.iface w h, over))
            | inr e ↦ rw e (
              smol.register_send_waker cx s,
              settled-Holds smol sets io (smol.register_send_waker cx s) w.net.iface w h,
            )
          ])

  accept_refused-ne : (e : ListenError) → accept_refused e ≢ AcceptError.connection_reset
  accept_refused-ne ListenError.invalid_state h = cc
  accept_refused-ne ListenError.unaddressable h = cc

  accept_result :
      (sock : TcpSocket smol)
      (r : Option ((Option (Result (Unit {0}) AcceptError) × Unit {0}) × World smol))
      → Waits
          (λ _ w. Held smol sock.io w)
          (λ r _ w. (r ≡ ok tt) × InState smol (λ st. ¬ IsAwaited st) sock.io w)
          r
      → Accepts sock (elim r [ none ↦ none | some ((r', _), w') ↦ some (r', w') ])
  accept_result sock none h = h
  accept_result sock (some ((none, _), w)) h = h
  accept_result sock (some ((some (ok _), _), w)) h = h.1
  accept_result sock (some ((some (err e), _), w)) h = λ _. cc (h.0)

  after_listen-Accepts :
      SetLaws smol
      → (sock : TcpSocket smol) (cx : smol.Waker) (sched : Schedule smol)
      → Keeps (λ (_ : Unit {0}) w. Held smol sock.io w) sched
      → (r : Result (Unit {0}) ListenError) (w : World smol) → Held smol sock.io w
      → Accepts sock (after_listen smol sock cx sched (some (r, w)))
  after_listen-Accepts sets sock cx sched keeps (err e) w h = accept_refused-ne e
  after_listen-Accepts sets sock cx sched keeps (ok _) w h = accept_result sock _ (
      await-Waits (λ _ w. Held smol sock.io w)
        (λ r _ w. (r ≡ ok tt) × InState smol (λ st. ¬ IsAwaited st) sock.io w)
        (stateless (poll_accept smol sock.io cx)) tt sched w (poll_accept-Progress sets sock.io cx)
        keeps h)

  -- `accept` does not panic and never answers `ConnectionReset`, the third of its errors; if it
  -- answers `Ok`, the socket has left LISTEN, SYN-SENT and SYN-RECEIVED. The changes between the
  -- polls keep the socket in place.
  pub accept-Accepts :
      SetLaws smol
      → (sock : TcpSocket smol) (local : smol.IpListenEndpoint) (cx : smol.Waker)
      → (sched : Schedule smol) (w : World smol)
      → Keeps (λ (_ : Unit {0}) w. Held smol sock.io w) sched
      → Held smol sock.io w
      → Accepts sock (accept smol sock local cx sched w)
  unfolding accept start_listen
  accept-Accepts sets sock local cx sched w keeps (s, h) =
      let (r, s') = smol.listen_on local s in
      subst (λ o. Accepts sock (after_listen smol sock cx sched o))
        (sym (on_socket_lem smol sock.io (smol.listen_on local) w h))
        (after_listen-Accepts sets sock cx sched keeps r (settled smol sock.io s' w.net.iface w)
          (s', settled-Holds smol sets sock.io s' w.net.iface w h))
