-- ===== src/Socket/Reader.antt =====
-- src/socket.rs: the methods of `impl TcpReader`. A future runs over the schedule of the changes
-- between its polls; the slice that is read into and the callback come back with the answer.
use ra6m3_rtic.Prelude.{ℕ, Option, List, Result}
use ra6m3_rtic.Smoltcp.{Smoltcp}
use ra6m3_rtic.PollShare.{M}
use ra6m3_rtic.Future.{Schedule, stateless, await}
use ra6m3_rtic.Socket.Types.{Error, TcpReader}
use ra6m3_rtic.Socket.Inner
use ra6m3_rtic.Socket.Inner.{Callback, poll_read_ready, poll_read, poll_read_with}

module _ (smol : Smoltcp) (reader : TcpReader smol) where
  unfoldable pub wait_read_ready :
      smol.Waker → Schedule smol → M smol (Option (Unit {0}) × Unit {0})
  unfolding await
  wait_read_ready cx sched = await (stateless (poll_read_ready smol reader.io cx)) tt sched

  unfoldable pub read :
      smol.Waker → List ℕ → Schedule smol → M smol (Option (Result ℕ Error) × List ℕ)
  unfolding await
  read cx buf sched = await (poll_read smol reader.io cx) buf sched

  unfoldable pub read_with :
      {R : Type 0}
      → smol.Waker
      → Option (Callback R)
      → Schedule smol
      → M smol (Option (Result R Error) × Option (Callback R))
  unfolding await
  read_with cx f sched = await (poll_read_with smol reader.io cx) f sched

  unfoldable pub recv_capacity : M smol ℕ
  unfolding Inner.recv_capacity
  recv_capacity = Inner.recv_capacity smol reader.io

  unfoldable pub recv_queue : M smol ℕ
  unfolding Inner.recv_queue
  recv_queue = Inner.recv_queue smol reader.io
