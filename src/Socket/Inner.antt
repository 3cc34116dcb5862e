-- ===== src/Socket/Inner.antt =====
-- src/socket.rs: the methods of `impl SocketInner`. Each method that returns a future is given by
-- its poll function; what the closure captures and mutates is an argument and comes back.
use ra6m3_rtic.Prelude.{
  ℕ, Bool, true, false, not, ◌&&◌, ◌||◌, Option, none, some, List, Result, ok, err, zero, ltb,
  if◌then◌else◌, is_some,
}
use ra6m3_rtic.Prelude.Lists.{is_empty}
use ra6m3_rtic.Smoltcp.{Smoltcp, State, RecvError, SendError}
use ra6m3_rtic.PollShare.{M}
use ra6m3_rtic.Future.{Poll, ready, pending}
use ra6m3_rtic.Socket.Types.{Error, SocketInner}
use ra6m3_rtic.Socket.Access.{with, with_mut, on_socket}

-- The result of `s.send(f)` and of `s.recv(f)`, as `write_with` and `read_with` pass it on.
abbrev pub send_outcome : {R : Type 0} → Result R SendError → Result R Error
send_outcome (err SendError.invalid_state) = err Error.connection_reset
send_outcome (ok r) = ok r

abbrev pub recv_outcome : {R : Type 0} → Result R RecvError → Result R Error
recv_outcome (err RecvError.finished) = err Error.connection_reset
recv_outcome (err RecvError.invalid_state) = err Error.connection_reset
recv_outcome (ok r) = ok r

-- A callback on the contiguous slice of a buffer: how many octets it took, the slice, a value.
abbrev pub Callback : Type 0 → Type 0
Callback R = List ℕ → ℕ × List ℕ × R

-- `s.state() == tcp::State::Closed`
abbrev pub is_closed : State → Bool
is_closed State.closed = true
is_closed _ = false

-- `matches!(s.state(), FinWait1 | Closing | LastAck)`
abbrev pub is_fin_pending : State → Bool
is_fin_pending State.fin_wait1 = true
is_fin_pending State.closing = true
is_fin_pending State.last_ack = true
is_fin_pending _ = false

module _ (smol : Smoltcp) where
  -- The closure that `poll_read_ready` hands to `with_mut`.
  abbrev pub read_ready_step : smol.Waker → smol.Socket → Poll (Unit {0}) × smol.Socket
  read_ready_step cx s =
      if smol.can_recv s then (ready tt, s) else (pending, smol.register_recv_waker cx s)

  -- `SocketInner::poll_read_ready`
  unfoldable pub poll_read_ready : SocketInner smol → smol.Waker → M smol (Poll (Unit {0}))
  unfolding with_mut
  poll_read_ready io cx = with_mut smol io (on_socket smol (read_ready_step cx))

  -- The `match s.recv_slice(buf)` of `read`.
  abbrev pub read_outcome :
      smol.Waker → Bool → Result ℕ RecvError → smol.Socket → Poll (Result ℕ Error) × smol.Socket
  read_outcome cx true (ok zero) s = (ready (ok 0), s)
  read_outcome cx false (ok zero) s = (pending, smol.register_recv_waker cx s)
  read_outcome cx _ (ok n) s = (ready (ok n), s)
  read_outcome cx _ (err RecvError.finished) s = (ready (ok 0), s)
  read_outcome cx _ (err RecvError.invalid_state) s = (ready (err Error.connection_reset), s)

  -- The closure that `read` hands to `with_mut`.
  abbrev pub read_step :
      smol.Waker → List ℕ → smol.Socket → (Poll (Result ℕ Error) × List ℕ) × smol.Socket
  read_step cx buf s =
      let (r, buf', s') = smol.recv_slice buf s in
      let (p, s'') = read_outcome cx (is_empty buf) r s' in ((p, buf'), s'')

  -- `SocketInner::read`, which leaves what it received in `buf`.
  unfoldable pub poll_read :
      SocketInner smol → smol.Waker → List ℕ → M smol (Poll (Result ℕ Error) × List ℕ)
  unfolding with_mut
  poll_read io cx buf = with_mut smol io (on_socket smol (read_step cx buf))

  -- The closure that `poll_write_ready` hands to `with_mut`.
  abbrev pub write_ready_step : smol.Waker → smol.Socket → Poll (Unit {0}) × smol.Socket
  write_ready_step cx s =
      if smol.can_send s then (ready tt, s) else (pending, smol.register_send_waker cx s)

  -- `SocketInner::poll_write_ready`
  unfoldable pub poll_write_ready : SocketInner smol → smol.Waker → M smol (Poll (Unit {0}))
  unfolding with_mut
  poll_write_ready io cx = with_mut smol io (on_socket smol (write_ready_step cx))

  -- The `match s.send_slice(buf)` of `write`.
  abbrev pub write_outcome :
      smol.Waker → Result ℕ SendError → smol.Socket → Poll (Result ℕ Error) × smol.Socket
  write_outcome cx (ok zero) s = (pending, smol.register_send_waker cx s)
  write_outcome cx (ok n) s = (ready (ok n), s)
  write_outcome cx (err SendError.invalid_state) s = (ready (err Error.connection_reset), s)

  -- The closure that `write` hands to `with_mut`.
  abbrev pub write_step : smol.Waker → List ℕ → smol.Socket → Poll (Result ℕ Error) × smol.Socket
  write_step cx buf s = let (r, s') = smol.send_slice buf s in write_outcome cx r s'

  -- `SocketInner::write`
  unfoldable pub poll_write :
      SocketInner smol → smol.Waker → List ℕ → M smol (Poll (Result ℕ Error))
  unfolding with_mut
  poll_write io cx buf = with_mut smol io (on_socket smol (write_step cx buf))

  -- `if let Some(f) = f.take()`: the call, or the warning "Poll after completion".
  abbrev pub send_taken :
      {R : Type 0}
      → Option (Callback R)
      → smol.Socket
      → (Poll (Result R Error) × Option (Callback R)) × smol.Socket
  send_taken {R} (some f) s = let (r, s') = smol.send R f s in ((ready (send_outcome r), none), s')
  send_taken none s = ((pending, none), s)

  abbrev pub recv_taken :
      {R : Type 0}
      → Option (Callback R)
      → smol.Socket
      → (Poll (Result R Error) × Option (Callback R)) × smol.Socket
  recv_taken {R} (some f) s = let (r, s') = smol.recv R f s in ((ready (recv_outcome r), none), s')
  recv_taken none s = ((pending, none), s)

  -- The closure that `write_with` hands to `with_mut`.
  abbrev pub write_with_step :
      {R : Type 0}
      → smol.Waker
      → Option (Callback R)
      → smol.Socket
      → (Poll (Result R Error) × Option (Callback R)) × smol.Socket
  write_with_step cx f s =
      if smol.can_send s
      then send_taken f s
      else if smol.may_send s
      then ((pending, f), smol.register_send_waker cx s)
      else ((ready (err Error.connection_reset), f), s)

  -- `SocketInner::write_with`; the closure owns `let mut f = Some(f)`.
  unfoldable pub poll_write_with :
      {R : Type 0}
      → SocketInner smol
      → smol.Waker
      → Option (Callback R)
      → M smol (Poll (Result R Error) × Option (Callback R))
  unfolding with_mut
  poll_write_with io cx f = with_mut smol io (on_socket smol (write_with_step cx f))

  -- The closure that `read_with` hands to `with_mut`.
  abbrev pub read_with_step :
      {R : Type 0}
      → smol.Waker
      → Option (Callback R)
      → smol.Socket
      → (Poll (Result R Error) × Option (Callback R)) × smol.Socket
  read_with_step cx f s =
      if smol.can_recv s
      then recv_taken f s
      else if smol.may_recv s
      then ((pending, f), smol.register_recv_waker cx s)
      else ((ready (err Error.connection_reset), f), s)

  -- `SocketInner::read_with`
  unfoldable pub poll_read_with :
      {R : Type 0}
      → SocketInner smol
      → smol.Waker
      → Option (Callback R)
      → M smol (Poll (Result R Error) × Option (Callback R))
  unfolding with_mut
  poll_read_with io cx f = with_mut smol io (on_socket smol (read_with_step cx f))

  -- The closure that `flush` hands to `with_mut`.
  abbrev pub flush_step : smol.Waker → smol.Socket → Poll (Result (Unit {0}) Error) × smol.Socket
  flush_step cx s =
      let data_pending = ltb 0 (smol.send_queue s) && not (is_closed (smol.state s)) in
      let fin_pending = is_fin_pending (smol.state s) in
      let rst_pending = is_closed (smol.state s) && is_some (smol.remote_endpoint s) in
      if data_pending || fin_pending || rst_pending
      then (pending, smol.register_send_waker cx s)
      else (ready (ok tt), s)

  -- `SocketInner::flush`
  unfoldable pub poll_flush :
      SocketInner smol → smol.Waker → M smol (Poll (Result (Unit {0}) Error))
  unfolding with_mut
  poll_flush io cx = with_mut smol io (on_socket smol (flush_step cx))

  -- `recv_capacity`, `send_capacity`, `send_queue`, `recv_queue`
  unfoldable pub recv_capacity : SocketInner smol → M smol ℕ
  unfolding with
  recv_capacity io = with smol io (λ s _. smol.recv_capacity s)

  unfoldable pub send_capacity : SocketInner smol → M smol ℕ
  unfolding with
  send_capacity io = with smol io (λ s _. smol.send_capacity s)

  unfoldable pub send_queue : SocketInner smol → M smol ℕ
  unfolding with
  send_queue io = with smol io (λ s _. smol.send_queue s)

  unfoldable pub recv_queue : SocketInner smol → M smol ℕ
  unfolding with
  recv_queue io = with smol io (λ s _. smol.recv_queue s)
