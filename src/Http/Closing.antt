-- ===== src/Http/Closing.antt =====
-- src/socket.rs, `abort` and `shutdown` for picoserve, with the timer of src/http/timer.rs and the
-- timeouts of src/http.rs, in time.
use ra6m3_rtic.Prelude.{ℕ, Bool, true, false, Option, none, some, Result, ok, err}
use ra6m3_rtic.Smoltcp.{Smoltcp}
use ra6m3_rtic.PollShare.{World, M, pure, ◌>>=◌, ◌>>◌}
use ra6m3_rtic.Future.{Poll, ready, pending, stateless}
use ra6m3_rtic.Socket.Types.{Error, SocketInner, TcpSocket}
use ra6m3_rtic.Socket.Inner.{poll_flush}
use ra6m3_rtic.Socket.Tcp.{abort, close}
use ra6m3_rtic.Socket.Io.{ServeError, read_timeout, write_timeout, read, write, after_flush}
use ra6m3_rtic.Http.Timer.{Time, TimeoutError, timeout_error, run_with_timeout}
use ra6m3_rtic.Http.Clock.{Timed, drive}
use ra6m3_rtic.Http.Expiry.{deadline}

-- `picoserve::Timeouts`
pub record Timeouts {smol : Smoltcp} (time : Time smol) : Type 0 where
  pub start_read_request : time.Duration
  pub read_request : time.Duration
  pub write : time.Duration
  pub persistent_start_read_request : time.Duration

-- The timeouts of `handle_connection`.
unfoldable pub timeouts : {smol : Smoltcp} (time : Time smol) → Timeouts time
timeouts time = record {
  start_read_request = time.from_millis 5000;
  read_request = time.from_millis 1000;
  write = time.from_millis 5000;
  persistent_start_read_request = time.from_millis 100;
}

-- An answer, if there is one, with its instant and the changes that are to come.
abbrev pub Closed : Smoltcp → Type 0
Closed smol = Option (Result (Unit {0}) ServeError) × (ℕ × Timed smol)

-- The two `map_err` behind the timed flush.
abbrev pub write_result :
    Result (Result (Unit {0}) Error) TimeoutError → Result (Unit {0}) ServeError
write_result (err timeout_error) = err write_timeout
write_result (ok (err e)) = err (write e)
write_result (ok (ok _)) = ok tt

module _ {smol : Smoltcp} (time : Time smol) (limits : Timeouts time) where
  -- `timer.run_with_timeout(timeouts.write, self.flush())`
  unfoldable pub timed_flush : SocketInner smol → smol.Waker → ℕ → Timed smol → M smol (Closed smol)
  unfolding drive run_with_timeout
  timed_flush io cx start sched = do
    ((r, _), at) ←
        drive (run_with_timeout time limits.write (stateless (poll_flush smol io cx)) start)
          (deadline time limits.write start) start tt sched
    pure (elim r [ none ↦ none | some a ↦ some (write_result a) ], at)

  -- `picoserve::io::Socket::abort`
  unfoldable pub timed_abort : TcpSocket smol → smol.Waker → ℕ → Timed smol → M smol (Closed smol)
  unfolding abort timed_flush
  timed_abort sock cx start sched = do abort smol sock; timed_flush sock.io cx start sched

  -- The `or` in `shutdown`, after a poll of its first side, the timed `rx.discard_all_data()`. The
  -- second side is the flush; the flag tells if it has returned.
  abbrev pub after_read :
      {X : Type 0}
      → SocketInner smol
      → smol.Waker
      → Bool
      → Option ((Poll (Result (Result (Unit {0}) Error) TimeoutError) × X) × World smol)
      → Option ((Poll (Result (Unit {0}) ServeError) × (X × Bool)) × World smol)
  after_read io cx flushed none = none
  after_read io cx flushed (some ((ready (err timeout_error), x), w)) =
      some ((ready (err read_timeout), (x, flushed)), w)
  after_read io cx flushed (some ((ready (ok (err e)), x), w)) =
      some ((ready (err (read e)), (x, flushed)), w)
  after_read io cx flushed (some ((ready (ok (ok _)), x), w)) =
      some ((ready (ok tt), (x, flushed)), w)
  after_read io cx true (some ((pending, x), w)) = some ((pending, (x, true)), w)
  after_read io cx false (some ((pending, x), w)) = after_flush smol x (poll_flush smol io cx w)

  -- The `or`, created at `start` and polled at `now`.
  unfoldable pub poll_or :
      {X : Type 0}
      → SocketInner smol
      → smol.Waker
      → (X → M smol (Poll (Result (Unit {0}) Error) × X))
      → ℕ
      → ℕ
      → X × Bool
      → M smol (Poll (Result (Unit {0}) ServeError) × (X × Bool))
  unfolding run_with_timeout
  poll_or io cx discard start now (x, flushed) w =
      after_read io cx flushed (run_with_timeout time limits.read_request discard start now x w)

  -- After the `or`: its error, or the last flush.
  abbrev pub after_or :
      SocketInner smol
      → smol.Waker
      → Option (Result (Unit {0}) ServeError)
      → ℕ
      → Timed smol
      → M smol (Closed smol)
  after_or io cx none now sched = pure (none, (now, sched))
  after_or io cx (some (err e)) now sched = pure (some (err e), (now, sched))
  after_or io cx (some (ok _)) now sched = timed_flush io cx now sched

  -- `picoserve::io::Socket::shutdown`
  unfoldable pub timed_shutdown :
      {X : Type 0}
      → TcpSocket smol
      → smol.Waker
      → (X → M smol (Poll (Result (Unit {0}) Error) × X))
      → X
      → ℕ
      → Timed smol
      → M smol (Closed smol)
  unfolding close drive poll_or timed_flush
  timed_shutdown sock cx discard x start sched = do
    close smol sock
    ((r, _), (now, rest)) ←
        drive (poll_or sock.io cx discard start) (deadline time limits.read_request start) start
          (x, false) sched
    after_or sock.io cx r now rest
