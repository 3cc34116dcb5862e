-- ===== src/Ethernet.antt =====
-- src/net_ra6m3.rs.
pub mod Create
pub mod Callback
