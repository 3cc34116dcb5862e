-- ===== src/Mqtt/Backoff.antt =====
-- src/mqtt.rs: the state that `mqtt` keeps across connection attempts, and the beginning of
-- `connect_transport_inner`: the backoff, and the choice of the local port.
use ra6m3_rtic.Prelude.{ℕ, suc, ◌+◌, ◌%◌, ◌^◌, Bool, false, Option, none, some, List, [], ◌∷◌, ltb}

-- MQTT_CLIENT_PORT, RECONNECT_INTERVAL_MS
abbrev pub mqtt_client_port : ℕ
mqtt_client_port = 58026

abbrev pub reconnect_interval_ms : ℕ
reconnect_interval_ms = 2_000

-- `port_shift: Wrapping<u8>` and `last_attempt`, in ticks.
pub record Attempts : Type 0 where
  pub port_shift : ℕ
  pub last_attempt : Option ℕ

-- The readings of the monotonic that an attempt makes: at the test of the deadline, when
-- `delay_until` returns (if it is called), and for `last_attempt`.
pub record Readings : Type 0 where
  pub tested : ℕ
  pub resumed : ℕ
  pub stamped : ℕ

-- `last + RECONNECT_INTERVAL_MS.millis()`, where `millis` converts to ticks.
abbrev pub deadline : (ℕ → ℕ) → ℕ → ℕ
deadline millis last = last + millis reconnect_interval_ms

-- Is `Mono::delay_until(deadline)` awaited?
unfoldable pub backs_off : (ℕ → ℕ) → Attempts → Readings → Bool
backs_off millis a r = elim a.last_attempt [
  | none ↦ false
  | some last ↦ ltb r.tested (deadline millis last)
]

-- `MQTT_CLIENT_PORT.wrapping_add(port_shift.0 as u16)`
unfoldable pub local_port : Attempts → ℕ
local_port a = (mqtt_client_port + a.port_shift) % 2 ^ 16

-- `*last_attempt = Some(Mono::now())` and `*port_shift += 1`
unfoldable pub begin_attempt : Attempts → Readings → Attempts
begin_attempt a r = record { port_shift = suc a.port_shift % 2 ^ 8; last_attempt = some r.stamped }

-- The two `let mut` of `mqtt`.
unfoldable pub initial : Attempts
initial = record { port_shift = 0; last_attempt = none }

-- The state after the attempts of `rs`, and the local ports that they used, in order.
unfoldable pub after_attempts : Attempts → List Readings → Attempts
unfolding begin_attempt
after_attempts a [] = a
after_attempts a (r ∷ rs) = after_attempts (begin_attempt a r) rs

unfoldable pub ports : Attempts → List Readings → List ℕ
unfolding begin_attempt local_port
ports a [] = []
ports a (r ∷ rs) = local_port a ∷ ports (begin_attempt a r) rs
