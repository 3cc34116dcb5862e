-- ===== src/Tests.antt =====
-- A small network stack and small inputs, at which the theorems on the code are applied.
pub mod Toy
pub mod Laws
pub mod Changes
pub mod Broker
pub mod Text
pub mod Konst
pub mod Sockets
pub mod Sessions
mod Configured
pub mod Tasks
pub mod Startup
mod Crash
mod Lines
pub mod Timing
mod Again
mod Scheduling
mod Encrypted
mod Subscription
