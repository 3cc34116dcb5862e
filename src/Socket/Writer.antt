-- ===== src/Socket/Writer.antt =====
-- src/socket.rs: the methods of `impl TcpWriter`.
use ra6m3_rtic.Prelude.{ℕ, Option, List, Result}
use ra6m3_rtic.Smoltcp.{Smoltcp}
use ra6m3_rtic.PollShare.{M}
use ra6m3_rtic.Future.{Schedule, stateless, await}
use ra6m3_rtic.Socket.Types.{Error, TcpWriter}
use ra6m3_rtic.Socket.Inner
use ra6m3_rtic.Socket.Inner.{Callback, poll_write_ready, poll_write, poll_write_with, poll_flush}

module _ (smol : Smoltcp) (writer : TcpWriter smol) where
  unfoldable pub wait_write_ready :
      smol.Waker → Schedule smol → M smol (Option (Unit {0}) × Unit {0})
  unfolding await
  wait_write_ready cx sched = await (stateless (poll_write_ready smol writer.io cx)) tt sched

  unfoldable pub write :
      smol.Waker → List ℕ → Schedule smol → M smol (Option (Result ℕ Error) × Unit {0})
  unfolding await
  write cx buf sched = await (stateless (poll_write smol writer.io cx buf)) tt sched

  unfoldable pub flush :
      smol.Waker → Schedule smol → M smol (Option (Result (Unit {0}) Error) × Unit {0})
  unfolding await
  flush cx sched = await (stateless (poll_flush smol writer.io cx)) tt sched

  unfoldable pub write_with :
      {R : Type 0}
      → smol.Waker
      → Option (Callback R)
      → Schedule smol
      → M smol (Option (Result R Error) × Option (Callback R))
  unfolding await
  write_with cx f sched = await (poll_write_with smol writer.io cx) f sched

  unfoldable pub send_capacity : M smol ℕ
  unfolding Inner.send_capacity
  send_capacity = Inner.send_capacity smol writer.io

  unfoldable pub send_queue : M smol ℕ
  unfolding Inner.send_queue
  send_queue = Inner.send_queue smol writer.io
