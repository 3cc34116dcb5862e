-- ===== src/Mqtt/Transport.antt =====
-- src/mqtt.rs: `connect_transport_inner`, without the feature `tls`.
use ra6m3_rtic.Prelude.{ℕ, Bool, Option, some, Result, if◌then◌else◌}
use ra6m3_rtic.Smoltcp.{Smoltcp}
use ra6m3_rtic.PollShare.{World, M, pure, ◌>>=◌, ◌>>◌}
use ra6m3_rtic.Future.{Schedule}
use ra6m3_rtic.Socket.Types.{ConnectError, TcpSocket, new}
use ra6m3_rtic.Socket.Tcp.{set_timeout, set_keep_alive, is_open, abort, connect}
use ra6m3_rtic.Mqtt.Backoff.{Attempts, Readings, local_port, begin_attempt}

-- A socket that a previous session left open is dropped.
abbrev pub abort_if : (smol : Smoltcp) → TcpSocket smol → Bool → M smol (Unit {0})
abort_if smol tcp left_open = if left_open then abort smol tcp else pure tt

module _ (smol : Smoltcp) (from_secs : ℕ → smol.Duration) where
  -- The calls on the socket.
  unfoldable pub open_transport :
      TcpSocket smol
      → smol.IpEndpoint
      → ℕ
      → smol.Waker
      → Schedule smol
      → M smol (Option (Result (Unit {0}) ConnectError))
  unfolding set_timeout set_keep_alive is_open abort connect
  open_transport tcp remote port cx sched = do
    set_timeout smol tcp (some (from_secs 3600))
    set_keep_alive smol tcp (some (from_secs 1200))
    left_open ← is_open smol tcp
    abort_if smol tcp left_open
    connect smol tcp remote port cx sched

  -- The attempt's readings are those after the backoff; its state is changed before the calls,
  -- whatever they return.
  unfoldable pub connect_transport :
      smol.SocketHandle
      → smol.IpEndpoint
      → Attempts
      → Readings
      → smol.Waker
      → Schedule smol
      → World smol
      → Attempts × Option (Option (Result (Unit {0}) ConnectError) × World smol)
  unfolding open_transport begin_attempt local_port new
  connect_transport handle remote a r cx sched w =
      (begin_attempt a r, open_transport (new handle) remote (local_port a) cx sched w)
