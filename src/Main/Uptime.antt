-- ===== src/Main/Uptime.antt =====
-- src/mono.rs: `uptime_us`; src/log_ra6m3_setup.rs: the time stamp of a log line.
use ra6m3_rtic.Prelude.{ℕ, ◌+◌, ◌*◌, ◌/◌, ◌%◌, ◌<◌, ◌≡◌, Bool, arith, if◌then◌else◌, not}

-- `uptime_us`: 0 before STARTED is set, then the monotonic in microseconds; `to_micros` converts its
-- ticks.
unfoldable pub uptime_us : (ℕ → ℕ) → Bool → ℕ → ℕ
uptime_us to_micros started now = if not started then 0 else to_micros now

-- `RttLogger::log`: the seconds, and the three digits behind the point.
unfoldable pub stamp : ℕ → ℕ × ℕ
stamp us = (us / 1_000_000, us % 1_000_000 / 1_000)

-- The time stamp of a log line is the uptime in whole milliseconds, rounded down, with three digits
-- for the milliseconds.
pub stamp_lem :
    (to_micros : ℕ → ℕ) (started : Bool) (now : ℕ)
    → let (secs, millis) = stamp (uptime_us to_micros started now) in
      (millis < 1000) × (secs * 1000 + millis ≡ uptime_us to_micros started now / 1000)
unfolding stamp
stamp_lem to_micros started now = (omega arith, omega arith)
