-- ===== src/Socket.antt =====
-- src/socket.rs: the asynchronous TCP socket on top of smoltcp.
pub mod Types
pub mod Access
pub mod Inner
pub mod Tcp
pub mod Reader
pub mod Writer
pub mod Whole
pub mod Io
pub mod Frame
pub mod Laws
pub mod Queries
pub mod Stream
pub mod Duplex
pub mod Contract
pub mod Reads
pub mod EndOfStream
pub mod Flush
pub mod Lifecycle
pub mod Closing
pub mod Disconnect
