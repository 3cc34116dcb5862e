-- ===== src/IoPorts.antt =====
-- src/io_ports.rs: the pin table.
pub mod Types
pub mod Low
pub mod Middle
pub mod High
pub mod Table
pub mod Checks
