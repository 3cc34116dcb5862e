-- ===== src/Mqtt/Tls.antt =====
-- src/mqtt/tls_socket.rs, and `connect_transport_inner` of src/mqtt.rs with the feature `tls`. The
-- embedded_tls crate is a parameter.
use ra6m3_rtic.Prelude.{ℕ, Option, none, some, List, Result, ok, err}
use ra6m3_rtic.Smoltcp.{Smoltcp}
use ra6m3_rtic.PollShare.{World, M, pure, ◌>>=◌}
use ra6m3_rtic.Future.{Schedule}
use ra6m3_rtic.Socket.Types.{ConnectError, ErrorKind, SocketInner, TcpSocket}
use ra6m3_rtic.Socket.Types
use ra6m3_rtic.Socket.Tcp.{disconnect}
use ra6m3_rtic.Socket.Whole.{of_inner, into_inner}
use ra6m3_rtic.Mqtt.Backoff.{Attempts, Readings, local_port, begin_attempt}
use ra6m3_rtic.Mqtt.Transport.{open_transport}

-- `embedded_tls::TlsConnection` over a `SocketInner`. A call is awaited while the schedule runs, and
-- its answer is `none` if it is still pending then.
pub record EmbeddedTls (smol : Smoltcp) : Type 1 where
  pub TlsConnection : Type 0
  pub TlsContext : Type 0
  pub TlsError : Type 0
  pub new : SocketInner smol → List ℕ → List ℕ → TlsConnection
  pub tls_open :
      TlsContext
      → TlsConnection
      → smol.Waker
      → Schedule smol
      → M smol (Option (Result (Unit {0}) TlsError) × TlsConnection)
  pub close :
      TlsConnection
      → smol.Waker
      → Schedule smol
      → M smol (Option (Result (SocketInner smol) (SocketInner smol × TlsError)))
  pub read :
      TlsConnection
      → List ℕ
      → smol.Waker
      → Schedule smol
      → M smol (Option (Result ℕ TlsError) × List ℕ × TlsConnection)
  pub write :
      TlsConnection
      → List ℕ
      → smol.Waker
      → Schedule smol
      → M smol (Option (Result ℕ TlsError) × TlsConnection)
  pub flush :
      TlsConnection
      → smol.Waker
      → Schedule smol
      → M smol (Option (Result (Unit {0}) TlsError) × TlsConnection)

-- `TlsSocket` and `TlsIoError`
pub record TlsSocket {smol : Smoltcp} (tls : EmbeddedTls smol) : Type 0 where
  pub connection : tls.TlsConnection

pub record TlsIoError {smol : Smoltcp} (tls : EmbeddedTls smol) : Type 0 where
  pub error : tls.TlsError

module _ (smol : Smoltcp) (tls : EmbeddedTls smol) where
  -- `TlsIoError::kind`
  unfoldable pub tls_error_kind : TlsIoError tls → ErrorKind
  tls_error_kind e = ErrorKind.other

  -- `TlsSocket::new`
  unfoldable pub new_tls : TcpSocket smol → List ℕ → List ℕ → TlsSocket tls
  unfolding into_inner
  new_tls delegate record_read_buf record_write_buf = record {
    connection = tls.new (into_inner delegate) record_read_buf record_write_buf;
  }

  -- `TlsSocket::open`
  unfoldable pub socket_open :
      tls.TlsContext
      → TlsSocket tls
      → smol.Waker
      → Schedule smol
      → M smol (Option (Result (Unit {0}) tls.TlsError) × TlsSocket tls)
  socket_open ctx t cx sched = do
    (answer, connection) ← tls.tls_open ctx t.connection cx sched
    pure (answer, record { connection = connection })

  -- `TlsSocket::close`; once `disconnect` has returned the result is known.
  abbrev pub returning :
      Result (Unit {0}) tls.TlsError → Option (Unit {0}) → Option (Result (Unit {0}) tls.TlsError)
  returning r none = none
  returning r (some _) = some r

  abbrev pub after_close :
      smol.Waker
      → Schedule smol
      → Option (Result (SocketInner smol) (SocketInner smol × tls.TlsError))
      → M smol (Option (Result (Unit {0}) tls.TlsError))
  after_close cx sched none = pure none
  after_close cx sched (some (ok socket)) = do
    d ← disconnect smol (of_inner socket) cx sched
    pure (returning (ok tt) d)
  after_close cx sched (some (err (socket, tls_err))) = do
    d ← disconnect smol (of_inner socket) cx sched
    pure (returning (err tls_err) d)

  unfoldable pub close :
      TlsSocket tls
      → smol.Waker
      → Schedule smol
      → Schedule smol
      → M smol (Option (Result (Unit {0}) tls.TlsError))
  unfolding disconnect of_inner
  close t cx closing leaving = do
    closed ← tls.close t.connection cx closing
    after_close cx leaving closed

  -- `.map_err(TlsIoError)`
  abbrev pub map_err {ℓ} :
      {A : Type ℓ} → Option (Result A tls.TlsError) → Option (Result A (TlsIoError tls))
  map_err none = none
  map_err (some (ok a)) = some (ok a)
  map_err (some (err e)) = some (err (record { error = e }))

  -- The methods of `embedded_io_async::Read` and `Write`.
  unfoldable pub read :
      TlsSocket tls
      → List ℕ
      → smol.Waker
      → Schedule smol
      → M smol (Option (Result ℕ (TlsIoError tls)) × List ℕ × TlsSocket tls)
  read t buf cx sched = do
    (answer, buf', connection) ← tls.read t.connection buf cx sched
    pure (map_err answer, buf', record { connection = connection })

  unfoldable pub write :
      TlsSocket tls
      → List ℕ
      → smol.Waker
      → Schedule smol
      → M smol (Option (Result ℕ (TlsIoError tls)) × TlsSocket tls)
  write t buf cx sched = do
    (answer, connection) ← tls.write t.connection buf cx sched
    pure (map_err answer, record { connection = connection })

  unfoldable pub flush :
      TlsSocket tls
      → smol.Waker
      → Schedule smol
      → M smol (Option (Result (Unit {0}) (TlsIoError tls)) × TlsSocket tls)
  flush t cx sched = do
    (answer, connection) ← tls.flush t.connection cx sched
    pure (map_err answer, record { connection = connection })

  -- The handshake behind `tcp.connect(…).await?`, with its error replaced.
  abbrev pub after_open :
      TlsSocket tls
      → Option (Result (Unit {0}) tls.TlsError)
      → Option (Result (TlsSocket tls) ConnectError)
  after_open t none = none
  after_open t (some (ok _)) = some (ok t)
  after_open t (some (err _)) = some (err ConnectError.connection_reset)

  unfoldable pub open_tls :
      tls.TlsContext
      → List ℕ
      → List ℕ
      → TcpSocket smol
      → smol.Waker
      → Schedule smol
      → Option (Result (Unit {0}) ConnectError)
      → M smol (Option (Result (TlsSocket tls) ConnectError))
  unfolding new_tls socket_open
  open_tls ctx tls_rx tls_tx tcp cx sched none = pure none
  open_tls ctx tls_rx tls_tx tcp cx sched (some (err e)) = pure (some (err e))
  open_tls ctx tls_rx tls_tx tcp cx sched (some (ok _)) = do
    (answer, t) ← socket_open ctx (new_tls tcp tls_rx tls_tx) cx sched
    pure (after_open t answer)

  -- `connect_transport_inner` behind the backoff.
  unfoldable pub connect_transport_tls :
      (ℕ → smol.Duration)
      → tls.TlsContext
      → List ℕ
      → List ℕ
      → smol.SocketHandle
      → smol.IpEndpoint
      → Attempts
      → Readings
      → smol.Waker
      → Schedule smol
      → Schedule smol
      → World smol
      → Attempts × Option (Option (Result (TlsSocket tls) ConnectError) × World smol)
  unfolding open_transport begin_attempt local_port Types.new open_tls
  connect_transport_tls from_secs ctx tls_rx tls_tx handle remote a r cx sched handshake w =
      let tcp = Types.new handle in
      (
        begin_attempt a r,
        (do
          opened ← open_transport smol from_secs tcp remote (local_port a) cx sched
          open_tls ctx tls_rx tls_tx tcp cx handshake opened)
            w,
      )
