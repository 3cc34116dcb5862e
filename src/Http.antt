-- ===== src/Http.antt =====
-- src/http.rs: the HTTP task.
pub mod Task
pub mod Rounds
pub mod Shutdown
pub mod Graceful
pub mod Timer
pub mod Clock
pub mod Expiry
pub mod Delay
pub mod Within
pub mod Flushing
pub mod Phases
pub mod Closing
pub mod Deadline
pub mod Aborted
pub mod Again
pub mod Next
