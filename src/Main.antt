-- ===== src/Main.antt =====
-- src/main.rs: the tasks that are not in a module of their own, the interrupts that drive them,
-- and the clock of the logs.
pub mod Periodic
pub mod Cadence
pub mod Interrupts
pub mod Links
pub mod Priorities
pub mod Ceiling
pub mod Levels
pub mod Uptime
pub mod Line
pub mod Columns
pub mod Widths
pub mod Timers
pub mod Boot
pub mod Ends
pub mod Up
pub mod Storage
pub mod Init
pub mod Startup
pub mod Panics
pub mod Crash
