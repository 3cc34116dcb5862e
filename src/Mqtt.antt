-- ===== src/Mqtt.antt =====
-- src/mqtt.rs: the MQTT task.
pub mod Backoff
pub mod Spacing
pub mod Transport
pub mod Reconnect
pub mod Utf8
pub mod Echo
pub mod Replies
pub mod Session
pub mod Subscribe
pub mod Acknowledged
pub mod Tls
pub mod TlsClose
pub mod TlsOpen
pub mod Survival
pub mod Turns
pub mod Restart
pub mod Settings
pub mod Task
