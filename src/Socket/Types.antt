-- ===== src/Socket/Types.antt =====
-- src/socket.rs: the error types, and the socket's handles.
use ra6m3_rtic.Smoltcp.{Smoltcp}

-- `Error`
pub data Error : Type 0 where
  connection_reset : Error

-- `ConnectError`
pub data ConnectError : Type 0 where
  invalid_state connection_reset timed_out no_route : ConnectError

-- `AcceptError`
pub data AcceptError : Type 0 where
  invalid_state invalid_port connection_reset : AcceptError

-- `embedded_io_async::ErrorKind`, the kinds that the code names
pub data ErrorKind : Type 0 where
  connection_reset timed_out not_connected other : ErrorKind

-- `SocketInner`. Its provider is the store of PollShare, so the handle is what is left.
pub record SocketInner (smol : Smoltcp) : Type 0 where
  pub handle : smol.SocketHandle

-- `TcpSocket`
pub record TcpSocket (smol : Smoltcp) : Type 0 where
  pub io : SocketInner smol

-- `TcpReader`
pub record TcpReader (smol : Smoltcp) : Type 0 where
  pub io : SocketInner smol

-- `TcpWriter`
pub record TcpWriter (smol : Smoltcp) : Type 0 where
  pub io : SocketInner smol

-- `TcpSocket::new`
unfoldable pub new : {smol : Smoltcp} → smol.SocketHandle → TcpSocket smol
new handle = record { io = record { handle = handle } }

-- `TcpSocket::destruct`
unfoldable pub destruct : {smol : Smoltcp} → TcpSocket smol → smol.SocketHandle
destruct s = s.io.handle

-- `TcpSocket::split`
unfoldable pub split : {smol : Smoltcp} → TcpSocket smol → TcpReader smol × TcpWriter smol
split s = (record { io = s.io }, record { io = s.io })

-- `embedded_io_async::Error::kind` for `ConnectError` and for `Error`
unfoldable pub connect_error_kind : ConnectError → ErrorKind
connect_error_kind ConnectError.connection_reset = ErrorKind.connection_reset
connect_error_kind ConnectError.timed_out = ErrorKind.timed_out
connect_error_kind ConnectError.no_route = ErrorKind.not_connected
connect_error_kind ConnectError.invalid_state = ErrorKind.other

unfoldable pub error_kind : Error → ErrorKind
error_kind Error.connection_reset = ErrorKind.connection_reset
