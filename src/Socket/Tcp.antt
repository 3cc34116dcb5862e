-- ===== src/Socket/Tcp.antt =====
-- src/socket.rs: the methods of `impl TcpSocket` that do more than hand on to `SocketInner`.
-- An `async fn` takes the waker of its task, and the schedule of the changes between its polls;
-- it returns `none` if it is still waiting when the schedule ends.
use ra6m3_rtic.Prelude.{ℕ, Bool, Option, none, some, Result, ok, err, if◌then◌else◌}
use ra6m3_rtic.Smoltcp.{Smoltcp, State, ListenError}
use ra6m3_rtic.Smoltcp
use ra6m3_rtic.PollShare.{World, M, pure, ◌>>=◌, ◌>>◌}
use ra6m3_rtic.Future.{Poll, ready, pending, Schedule, stateless, await}
use ra6m3_rtic.Socket.Types.{ConnectError, AcceptError, SocketInner, TcpSocket}
use ra6m3_rtic.Socket.Access.{with, with_mut, on_socket, Closure}

-- The errors that smoltcp's `connect` and `listen` return, as the code passes them on.
abbrev pub connect_refused : Smoltcp.ConnectError → ConnectError
connect_refused Smoltcp.ConnectError.invalid_state = ConnectError.invalid_state
connect_refused Smoltcp.ConnectError.unaddressable = ConnectError.no_route

abbrev pub accept_refused : ListenError → AcceptError
accept_refused ListenError.invalid_state = AcceptError.invalid_state
accept_refused ListenError.unaddressable = AcceptError.invalid_port

module _ (smol : Smoltcp) where
  -- The `match s.state()` in `connect`; `unreachable!()` is a panic.
  abbrev pub connect_progress :
      smol.Waker → State → Closure smol (Poll (Result (Unit {0}) ConnectError))
  connect_progress cx State.closed s i = some (ready (err ConnectError.connection_reset), s, i)
  connect_progress cx State.time_wait s i = some (ready (err ConnectError.connection_reset), s, i)
  connect_progress cx State.listen s i = none
  connect_progress cx State.syn_sent s i = some (pending, smol.register_send_waker cx s, i)
  connect_progress cx State.syn_received s i = some (pending, smol.register_send_waker cx s, i)
  connect_progress cx _ s i = some (ready (ok tt), s, i)

  unfoldable pub poll_connect :
      SocketInner smol → smol.Waker → M smol (Poll (Result (Unit {0}) ConnectError))
  unfolding with_mut
  poll_connect io cx = with_mut smol io (λ s i. connect_progress cx (smol.state s) s i)

  -- The call of smoltcp's `connect`.
  abbrev pub start_step :
      smol.IpEndpoint → ℕ → Closure smol (Result (Unit {0}) Smoltcp.ConnectError)
  start_step remote_endpoint local_port s i =
      let (r, i', s') = smol.connect i remote_endpoint local_port s in some (r, s', i')

  unfoldable pub start_connect :
      SocketInner smol → smol.IpEndpoint → ℕ → M smol (Result (Unit {0}) Smoltcp.ConnectError)
  unfolding with_mut
  start_connect io remote_endpoint local_port =
      with_mut smol io (start_step remote_endpoint local_port)

  -- What follows the call: its error is returned, or the handshake is awaited.
  abbrev pub after_connect :
      TcpSocket smol
      → smol.Waker
      → Schedule smol
      → Option (Result (Unit {0}) Smoltcp.ConnectError × World smol)
      → Option (Option (Result (Unit {0}) ConnectError) × World smol)
  after_connect sock cx sched none = none
  after_connect sock cx sched (some (err e, w)) = some (some (err (connect_refused e)), w)
  after_connect sock cx sched (some (ok _, w)) =
      (do (r, _) ← await (stateless (poll_connect sock.io cx)) tt sched; pure r) w

  -- `TcpSocket::connect`
  unfoldable pub connect :
      TcpSocket smol
      → smol.IpEndpoint
      → ℕ
      → smol.Waker
      → Schedule smol
      → M smol (Option (Result (Unit {0}) ConnectError))
  connect sock remote_endpoint local_port cx sched w =
      after_connect sock cx sched (start_connect sock.io remote_endpoint local_port w)

  -- The `match s.state()` in `accept`.
  abbrev pub accept_progress :
      smol.Waker → State → smol.Socket → Poll (Result (Unit {0}) AcceptError) × smol.Socket
  accept_progress cx State.listen s = (pending, smol.register_send_waker cx s)
  accept_progress cx State.syn_sent s = (pending, smol.register_send_waker cx s)
  accept_progress cx State.syn_received s = (pending, smol.register_send_waker cx s)
  accept_progress cx _ s = (ready (ok tt), s)

  unfoldable pub poll_accept :
      SocketInner smol → smol.Waker → M smol (Poll (Result (Unit {0}) AcceptError))
  unfolding with_mut
  poll_accept io cx = with_mut smol io (on_socket smol λ s. accept_progress cx (smol.state s) s)

  -- The call of smoltcp's `listen`.
  unfoldable pub start_listen :
      SocketInner smol → smol.IpListenEndpoint → M smol (Result (Unit {0}) ListenError)
  unfolding with_mut
  start_listen io local_endpoint = with_mut smol io (on_socket smol (smol.listen_on local_endpoint))

  -- What follows the call: its error is returned, or a connection is awaited.
  abbrev pub after_listen :
      TcpSocket smol
      → smol.Waker
      → Schedule smol
      → Option (Result (Unit {0}) ListenError × World smol)
      → Option (Option (Result (Unit {0}) AcceptError) × World smol)
  after_listen sock cx sched none = none
  after_listen sock cx sched (some (err e, w)) = some (some (err (accept_refused e)), w)
  after_listen sock cx sched (some (ok _, w)) =
      (do (r, _) ← await (stateless (poll_accept sock.io cx)) tt sched; pure r) w

  -- `TcpSocket::accept`
  unfoldable pub accept :
      TcpSocket smol
      → smol.IpListenEndpoint
      → smol.Waker
      → Schedule smol
      → M smol (Option (Result (Unit {0}) AcceptError))
  accept sock local_endpoint cx sched w =
      after_listen sock cx sched (start_listen sock.io local_endpoint w)

  -- A method that changes the socket and returns nothing.
  abbrev pub update : TcpSocket smol → (smol.Socket → smol.Socket) → M smol (Unit {0})
  update sock f = with_mut smol sock.io (on_socket smol λ s. (tt, f s))

  -- `set_timeout`, `set_keep_alive`, `set_hop_limit`
  unfoldable pub set_timeout : TcpSocket smol → Option smol.Duration → M smol (Unit {0})
  unfolding with_mut
  set_timeout sock duration = update sock (smol.set_timeout duration)

  unfoldable pub set_keep_alive : TcpSocket smol → Option smol.Duration → M smol (Unit {0})
  unfolding with_mut
  set_keep_alive sock interval = update sock (smol.set_keep_alive interval)

  unfoldable pub set_hop_limit : TcpSocket smol → Option ℕ → M smol (Unit {0})
  unfolding with_mut
  set_hop_limit sock hop_limit = update sock (smol.set_hop_limit hop_limit)

  -- `local_endpoint`, `remote_endpoint`, `state`
  unfoldable pub local_endpoint : TcpSocket smol → M smol (Option smol.IpEndpoint)
  unfolding with
  local_endpoint sock = with smol sock.io (λ s _. smol.local_endpoint s)

  unfoldable pub remote_endpoint : TcpSocket smol → M smol (Option smol.IpEndpoint)
  unfolding with
  remote_endpoint sock = with smol sock.io (λ s _. smol.remote_endpoint s)

  unfoldable pub state : TcpSocket smol → M smol State
  unfolding with
  state sock = with smol sock.io (λ s _. smol.state s)

  -- `close`, `is_open`
  unfoldable pub close : TcpSocket smol → M smol (Unit {0})
  unfolding with_mut
  close sock = update sock smol.close

  unfoldable pub is_open : TcpSocket smol → M smol Bool
  unfolding with
  is_open sock = with smol sock.io (λ s _. smol.is_open s)

  -- The branches of the poll function of `disconnect`.
  abbrev pub after_test : TcpSocket smol → smol.Waker → Bool → M smol (Poll (Unit {0}))
  after_test sock cx still_open =
      if still_open
      then update sock (smol.register_recv_waker cx) >> pure pending
      else pure (ready tt)

  -- The poll function of `disconnect`: two locks, the second one only to register.
  unfoldable pub poll_disconnect : TcpSocket smol → smol.Waker → M smol (Poll (Unit {0}))
  unfolding with with_mut
  poll_disconnect sock cx = do
    still_open ← with smol sock.io (λ s _. smol.is_open s)
    after_test sock cx still_open

  -- `disconnect`
  unfoldable pub disconnect :
      TcpSocket smol → smol.Waker → Schedule smol → M smol (Option (Unit {0}))
  unfolding with_mut await
  disconnect sock cx sched = do
    update sock smol.close
    (r, _) ← await (stateless (poll_disconnect sock cx)) tt sched
    pure r

  -- `abort`
  unfoldable pub abort : TcpSocket smol → M smol (Unit {0})
  unfolding with_mut
  abort sock = update sock smol.abort

  -- `may_send`, `can_send`, `may_recv`, `can_recv`
  unfoldable pub may_send : TcpSocket smol → M smol Bool
  unfolding with
  may_send sock = with smol sock.io (λ s _. smol.may_send s)

  unfoldable pub can_send : TcpSocket smol → M smol Bool
  unfolding with
  can_send sock = with smol sock.io (λ s _. smol.can_send s)

  unfoldable pub may_recv : TcpSocket smol → M smol Bool
  unfolding with
  may_recv sock = with smol sock.io (λ s _. smol.may_recv s)

  unfoldable pub can_recv : TcpSocket smol → M smol Bool
  unfolding with
  can_recv sock = with smol sock.io (λ s _. smol.can_recv s)
