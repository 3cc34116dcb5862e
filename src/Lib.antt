-- ===== src/Lib.antt =====
-- ra6m3-rtic: firmware for the RA6M3 on RTIC, with a TCP/IP stack (smoltcp), an MQTT client and an
-- HTTP server.
--
-- The program. Two tasks, `mqtt` (src/mqtt.rs) and `http` (src/http.rs), each own one TCP socket.
-- They reach it by the methods of `TcpSocket` (src/socket.rs), which lock the shared network by
-- `TokenProvider` (src/poll_share.rs) and then ask `network_poller_task` (src/network.rs) to run
-- smoltcp. src/main.rs declares the tasks, src/io_ports.rs the pins.
--
-- The model, by file:
-- - Smoltcp: what the code uses of the smoltcp crate, a parameter. Its documented behaviour, as
--   far as the code relies on it, is in the records of Socket/Laws and Socket/Frame (`SetLaws`).
-- - PollShare (src/poll_share.rs): the store `World`, with the shared `Net`, the flag of the
--   `RefCell`, NETWORK_POLL_REQUEST and the wakes of the poller; code on it is `M`, where `none`
--   is a panic; `lock` is `TokenProvider::lock`. PollShare/Reentry: the panic on reentry.
-- - Future: `poll_fn` and `.await`. An awaited future is polled once before each change of a
--   schedule and once after the last, and `none` says that it is still pending then. A timeout is
--   the end of a schedule; Http/Clock has schedules with instants. Every theorem holds for every
--   schedule, so no bound is chosen. Future/Laws: the rules for such waits,
--   of which one lets the network move only for a task that has left its waker.
-- - Socket (src/socket.rs): Types (the errors and handles), Access (`with`, `with_mut`), Inner
--   (`SocketInner`), Tcp (`TcpSocket`), Whole (the methods of `TcpSocket` that hand on to
--   `SocketInner`), Reader (`TcpReader`), Writer (`TcpWriter`), Io (the traits of embedded_io_async
--   and picoserve). Stream has the byte streams as an abstract view of a socket, and the events of
--   two tasks on its halves. The proofs are in Frame, Queries, Contract, Reads, Flush,
--   Lifecycle, Closing, Disconnect, Duplex, EndOfStream.
-- - Network (src/network.rs): Request (`request_network_poll`), Flag (the request and the poller
--   as interleaved atomic steps), Poll (one round of `network_poller_task`), Init (`init_network`,
--   over what smoltcp offers to make an interface and its sockets; its documented behaviour is in
--   Setup); NoLostRequest, Deadline, Starts and Panics hold the proofs.
-- - Mqtt (src/mqtt.rs): Backoff (`port_shift`, `last_attempt`), Transport
--   (`connect_transport_inner`), Utf8 and Echo (the loop over messages), Session (the outer loop of
--   `mqtt`), Settings (its storage and the configuration of its session) and Task (the whole of
--   `mqtt`), Subscribe (the subscription, whose loop has the number of polls as its fuel: one more
--   than the broker needs is enough), Tls (src/mqtt/tls_socket.rs, and the handshake with the
--   feature `tls`, over embedded_tls); the proofs are in Spacing, Reconnect, Replies, Survival,
--   Turns, Restart, Acknowledged, TlsOpen, TlsClose.
-- - Http (src/http.rs): Task (`http`, `handle_connection`), Timer (src/http/timer.rs, over the
--   durations of picoserve and the timers of embassy-time), Clock (how a future with a timer runs in
--   time: the changes have their instants, and the task is woken at its deadline), Closing (`abort`
--   and `shutdown` of src/socket.rs for picoserve with these timers); Rounds, Shutdown, Graceful,
--   Expiry, Delay, Within, Flushing, Phases, Deadline, Aborted, Again and Next
--   hold the proofs.
-- - IoPorts (src/io_ports.rs): Low, Middle, High and Table have every row of BSP_PIN_CFG; Checks.
-- - Ethernet (src/net_ra6m3.rs): Create (`create_dev`), Callback (`NetCallback`, on the requests of
--   Network.Flag).
-- - Main (src/main.rs): Priorities (the tasks with their priorities and shared resources, and the
--   steps by which RTIC lets them preempt each other), Periodic (`blinky`, `network_link_poll`),
--   Interrupts (the table of `event_link_select!`, the hardware tasks, and the interrupts named in
--   src/mono.rs, src/embassy_time_driver.rs and src/net_ra6m3.rs), Uptime (`uptime_us` of
--   src/mono.rs and the time stamp of src/log_ra6m3_setup.rs), Line (the text of a log line
--   there), Timers (the configuration of the two timers), Storage (src/socket_storage.rs), Boot
--   (the state of the start-up, whose code returns, or panics in a state: the two `start` of
--   src/mono.rs and src/embassy_time_driver.rs, the log lines, which read the clock, and `spawn`),
--   Init (`init`), Panics (the panic handler of src/log_ra6m3_setup.rs); Ceiling, Levels, Columns,
--   Widths, Cadence, Links, Ends, Up, Startup and Crash hold the proofs.
-- - Conf (src/conf.rs): Radix (`parse_u8`, `parse_u16`), Address (`parse_ipv4!`, `parse_ipv6!`,
--   `split_ip`, the constants), Broker (the end point of the broker), over the splitting of
--   texts of the konst crate; Print is the notation of the addresses, and Numbers and RoundTrip hold
--   the proofs.
-- - Tests: a small stack and a small TLS layer that fulfil the laws, and the theorems at small
--   inputs.
--
-- Numbers are natural numbers, and the instants of smoltcp are signed (Prelude/Signed). `u8`,
-- `u16`, `usize` (32 bits) and `i64` wrap where the code does; ticks of the monotonic are not
-- bounded, except where a theorem asks for 2 ^ 64.
--
-- Not modelled: the inside of the drivers of FSP, of smoltcp, of embedded_tls, of the session of
-- minimq and of the server of picoserve, which are parameters; the outer loop of `mqtt` with the
-- feature `tls`, which does not build; the static page of src/http.rs; the RTT channel of the
-- logs, and the macros of src/logs.rs. These are other crates, constant data or output.
pub mod Prelude
pub mod Smoltcp
pub mod PollShare
pub mod Future
pub mod Network
pub mod Socket
pub mod Mqtt
pub mod Http
pub mod Ethernet
pub mod IoPorts
pub mod Main
pub mod Conf
pub mod Tests
