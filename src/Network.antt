-- ===== src/Network.antt =====
-- src/network.rs.
pub mod Request
pub mod Flag
pub mod NoLostRequest
pub mod Poll
pub mod Init
pub mod Setup
pub mod Starts
pub mod Panics
pub mod Deadline
