-- ===== src/Socket/Whole.antt =====
-- src/socket.rs: the methods of `impl TcpSocket` that hand on to `SocketInner`, the conversions,
-- and the `embedded_io_async` methods, which call those of the same name.
use ra6m3_rtic.Prelude.{ℕ, Option, List, Result}
use ra6m3_rtic.Smoltcp.{Smoltcp}
use ra6m3_rtic.PollShare.{M}
use ra6m3_rtic.Future.{Schedule, stateless, await}
use ra6m3_rtic.Socket.Types.{Error, SocketInner, TcpSocket}
use ra6m3_rtic.Socket.Inner
use ra6m3_rtic.Socket.Inner.{
  Callback, poll_read_ready, poll_read, poll_read_with, poll_write_ready, poll_write,
  poll_write_with, poll_flush,
}

-- `From<SocketInner>` and its inverse
unfoldable pub of_inner : {smol : Smoltcp} → SocketInner smol → TcpSocket smol
of_inner io = record { io = io }

unfoldable pub into_inner : {smol : Smoltcp} → TcpSocket smol → SocketInner smol
into_inner sock = sock.io

module _ (smol : Smoltcp) (sock : TcpSocket smol) where
  unfoldable pub recv_capacity : M smol ℕ
  unfolding Inner.recv_capacity
  recv_capacity = Inner.recv_capacity smol sock.io

  unfoldable pub send_capacity : M smol ℕ
  unfolding Inner.send_capacity
  send_capacity = Inner.send_capacity smol sock.io

  unfoldable pub send_queue : M smol ℕ
  unfolding Inner.send_queue
  send_queue = Inner.send_queue smol sock.io

  unfoldable pub recv_queue : M smol ℕ
  unfolding Inner.recv_queue
  recv_queue = Inner.recv_queue smol sock.io

  unfoldable pub write_with :
      {R : Type 0}
      → smol.Waker
      → Option (Callback R)
      → Schedule smol
      → M smol (Option (Result R Error) × Option (Callback R))
  unfolding await
  write_with cx f sched = await (poll_write_with smol sock.io cx) f sched

  unfoldable pub read_with :
      {R : Type 0}
      → smol.Waker
      → Option (Callback R)
      → Schedule smol
      → M smol (Option (Result R Error) × Option (Callback R))
  unfolding await
  read_with cx f sched = await (poll_read_with smol sock.io cx) f sched

  unfoldable pub wait_read_ready :
      smol.Waker → Schedule smol → M smol (Option (Unit {0}) × Unit {0})
  unfolding await
  wait_read_ready cx sched = await (stateless (poll_read_ready smol sock.io cx)) tt sched

  unfoldable pub read :
      smol.Waker → List ℕ → Schedule smol → M smol (Option (Result ℕ Error) × List ℕ)
  unfolding await
  read cx buf sched = await (poll_read smol sock.io cx) buf sched

  unfoldable pub wait_write_ready :
      smol.Waker → Schedule smol → M smol (Option (Unit {0}) × Unit {0})
  unfolding await
  wait_write_ready cx sched = await (stateless (poll_write_ready smol sock.io cx)) tt sched

  unfoldable pub write :
      smol.Waker → List ℕ → Schedule smol → M smol (Option (Result ℕ Error) × Unit {0})
  unfolding await
  write cx buf sched = await (stateless (poll_write smol sock.io cx buf)) tt sched

  unfoldable pub flush :
      smol.Waker → Schedule smol → M smol (Option (Result (Unit {0}) Error) × Unit {0})
  unfolding await
  flush cx sched = await (stateless (poll_flush smol sock.io cx)) tt sched
