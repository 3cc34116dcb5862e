-- ===== src/Conf.antt =====
-- src/conf.rs.
pub mod Radix
pub mod Address
pub mod Print
pub mod Numbers
pub mod RoundTrip
pub mod Broker
