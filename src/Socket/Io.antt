-- ===== src/Socket/Io.antt =====
-- src/socket.rs: the `embedded_io_async` traits (`ReadReady`, `WriteReady`) of the socket and of
-- its halves, and the `picoserve` socket. `Read` and `Write` there hand on to `SocketInner`.
use ra6m3_rtic.Prelude.{Bool, true, false, not, ◌||◌, Option, none, some, Result, ok, err}
use ra6m3_rtic.Smoltcp.{Smoltcp}
use ra6m3_rtic.PollShare.{World, M, pure, ◌>>=◌, ◌>>◌}
use ra6m3_rtic.Future.{Poll, ready, pending, Schedule, stateless, await}
use ra6m3_rtic.Socket.Types.{Error, SocketInner, TcpSocket}
use ra6m3_rtic.Socket.Access.{with}
use ra6m3_rtic.Socket.Inner.{poll_flush}
use ra6m3_rtic.Socket.Tcp.{abort, close}

-- The cases of `picoserve::Error` that src/socket.rs builds and src/http.rs matches.
pub data ServeError : Type 0 where
  bad_request read_timeout write_timeout : ServeError
  read write : Error → ServeError

-- The two `map_err` after the timed `flush`.
abbrev pub flush_result : Option (Result (Unit {0}) Error) → Result (Unit {0}) ServeError
flush_result none = err write_timeout
flush_result (some (ok _)) = ok tt
flush_result (some (err e)) = err (write e)

module _ (smol : Smoltcp) where
  -- `ReadReady::read_ready` of `TcpSocket` and of `TcpReader`
  unfoldable pub read_ready : SocketInner smol → M smol (Result Bool Error)
  unfolding with
  read_ready io = with smol io (λ s _. ok (smol.can_recv s || not (smol.may_recv s)))

  -- `WriteReady::write_ready` of `TcpSocket` and of `TcpWriter`
  unfoldable pub write_ready : SocketInner smol → M smol (Result Bool Error)
  unfolding with
  write_ready io = with smol io (λ s _. ok (smol.can_send s))

  -- `timer.run_with_timeout(timeouts.write, self.flush())` and the two `map_err`. The schedule
  -- holds the changes up to the timeout: a future that is then still pending has timed out.
  unfoldable pub flush_with_timeout :
      SocketInner smol → smol.Waker → Schedule smol → M smol (Result (Unit {0}) ServeError)
  unfolding await
  flush_with_timeout io cx sched = do
    (r, _) ← await (stateless (poll_flush smol io cx)) tt sched
    pure (elim r [ none ↦ err write_timeout | some (ok _) ↦ ok tt | some (err e) ↦ err (write e) ])

  -- `picoserve::io::Socket::abort`
  unfoldable pub serve_abort :
      TcpSocket smol → smol.Waker → Schedule smol → M smol (Result (Unit {0}) ServeError)
  unfolding abort flush_with_timeout
  serve_abort sock cx sched = do abort smol sock; flush_with_timeout sock.io cx sched

  -- The second side of the `or` in `shutdown`, after a poll of `tx.flush()`: an error is returned,
  -- and the side is pending for ever once the flush has returned, which the flag tells.
  abbrev pub after_flush :
      {X : Type 0}
      → X
      → Option (Poll (Result (Unit {0}) Error) × World smol)
      → Option ((Poll (Result (Unit {0}) ServeError) × (X × Bool)) × World smol)
  after_flush x none = none
  after_flush x (some (ready (ok _), w)) = some ((pending, (x, true)), w)
  after_flush x (some (ready (err e), w)) = some ((ready (err (write e)), (x, false)), w)
  after_flush x (some (pending, w)) = some ((pending, (x, false)), w)

  -- After a poll of the first side, which has the first say.
  abbrev pub after_discard :
      {X : Type 0}
      → SocketInner smol
      → smol.Waker
      → Bool
      → Option ((Poll (Result (Unit {0}) Error) × X) × World smol)
      → Option ((Poll (Result (Unit {0}) ServeError) × (X × Bool)) × World smol)
  after_discard io cx flushed none = none
  after_discard io cx flushed (some ((ready (ok _), x), w)) =
      some ((ready (ok tt), (x, flushed)), w)
  after_discard io cx flushed (some ((ready (err e), x), w)) =
      some ((ready (err (read e)), (x, flushed)), w)
  after_discard io cx true (some ((pending, x), w)) = some ((pending, (x, true)), w)
  after_discard io cx false (some ((pending, x), w)) = after_flush x (poll_flush smol io cx w)

  -- The `or` in `shutdown`. `discard` polls `rx.discard_all_data()` of picoserve, whose state is
  -- `X`.
  unfoldable pub poll_drain :
      {X : Type 0}
      → SocketInner smol
      → smol.Waker
      → (X → M smol (Poll (Result (Unit {0}) Error) × X))
      → X × Bool
      → M smol (Poll (Result (Unit {0}) ServeError) × (X × Bool))
  poll_drain io cx discard (x, flushed) w = after_discard io cx flushed (discard x w)

  -- After the `or`: the timeout, its error, or the last flush.
  abbrev pub after_drain :
      SocketInner smol
      → smol.Waker
      → Schedule smol
      → Option (Result (Unit {0}) ServeError)
      → M smol (Result (Unit {0}) ServeError)
  after_drain io cx writing none = pure (err read_timeout)
  after_drain io cx writing (some (err e)) = pure (err e)
  after_drain io cx writing (some (ok _)) = flush_with_timeout io cx writing

  -- `picoserve::io::Socket::shutdown`. The first schedule ends with the timeout `read_request`,
  -- the second one with the timeout `write`.
  unfoldable pub shutdown :
      {X : Type 0}
      → TcpSocket smol
      → smol.Waker
      → (X → M smol (Poll (Result (Unit {0}) Error) × X))
      → X
      → Schedule smol
      → Schedule smol
      → M smol (Result (Unit {0}) ServeError)
  unfolding close await poll_drain flush_with_timeout
  shutdown sock cx discard x reading writing = do
    close smol sock
    (r, _) ← await (poll_drain sock.io cx discard) (x, false) reading
    after_drain sock.io cx writing r
