-- ===== src/Mqtt/Spacing.antt =====
-- The attempts of src/mqtt.rs are spaced in time, and their local ports differ.
use ra6m3_rtic.Prelude.{
  ℕ, zero, suc, ◌+◌, ◌*◌, ◌%◌, ◌≤◌, ◌<◌, ◌≡◌, ◌≢◌, refl, true, some, List, [], ◌∷◌, arith,
}
use ra6m3_rtic.Prelude.Lists.{length, get_elem?}
use ra6m3_rtic.Mqtt.Backoff.{
  mqtt_client_port, reconnect_interval_ms, Attempts, Readings, deadline, backs_off, local_port,
  begin_attempt, initial, after_attempts, ports,
}

module _ (millis : ℕ → ℕ) where
  -- The monotonic does not run backwards, and `delay_until` returns no earlier than it was asked.
  pub record IsTimely (a : Attempts) (r : Readings) : Type 0 where
    pub forward : r.tested ≤ r.stamped
    pub resumed_before : backs_off millis a r ≡ true → r.resumed ≤ r.stamped
    pub resumed_after :
        (last : ℕ)
        → a.last_attempt ≡ some last
        → backs_off millis a r ≡ true
        → deadline millis last ≤ r.resumed

  abbrev pub AllTimely : Attempts → List Readings → Type 0
  AllTimely a [] = Unit
  AllTimely a (r ∷ rs) = IsTimely a r × AllTimely (begin_attempt a r) rs

  -- One attempt is stamped at least the interval after the one before.
  attempt_spacing :
      (a : Attempts) (r : Readings) (last : ℕ)
      → IsTimely a r
      → a.last_attempt ≡ some last
      → last + millis reconnect_interval_ms ≤ r.stamped
  unfolding backs_off
  attempt_spacing a r last t e = ground (arith, t.resumed_after last e)

  -- After `n` more attempts to connect at least `n` reconnect intervals have passed since the last
  -- one was stamped, if the clock does not run backwards and no delay returns early.
  pub attempts_spacing :
      (a : Attempts) (rs : List Readings) (last : ℕ)
      → AllTimely a rs
      → a.last_attempt ≡ some last
      → (stamp : ℕ) × ((after_attempts a rs).last_attempt ≡ some stamp)
        × (last + length rs * millis reconnect_interval_ms ≤ stamp)
  unfolding after_attempts begin_attempt
  attempts_spacing a [] last t e = (last, e, omega arith)
  attempts_spacing a (r ∷ rs) last t e =
      let (stamp, e', le) = attempts_spacing (begin_attempt a r) rs r.stamped t.1 refl in
      (stamp, e', omega (arith, attempt_spacing a r last t.0 e))

-- The port of the `n`-th attempt: the shift counts attempts modulo 256.
ports_lem :
    (a : Attempts) (rs : List Readings) (i : ℕ)
    → a.port_shift < 256
    → i < length rs
    → get_elem? (ports a rs) i ≡ some (mqtt_client_port + (a.port_shift + i) % 256)
unfolding ports local_port begin_attempt
ports_lem a [] i s h = absurd (omega arith)
ports_lem a (r ∷ rs) zero s h = ground arith
ports_lem a (r ∷ rs) (suc i) s h =
    ground (arith, ports_lem (begin_attempt a r) rs i (omega arith) (omega arith))

port_in_range :
    (a : Attempts) (rs : List Readings) (i : ℕ) {p : ℕ}
    → get_elem? (ports a rs) i ≡ some p
    → i < length rs
unfolding ports
port_in_range a [] i e = cc
port_in_range a (r ∷ rs) zero e = omega arith
port_in_range a (r ∷ rs) (suc i) e = omega (arith, port_in_range (begin_attempt a r) rs i e)

-- Among any 256 attempts in a row no two use the same local port, and every port lies between
-- 58026 and 58281, so that `wrapping_add` never wraps.
pub ports_distinct :
    (rs : List Readings) (i j p q : ℕ)
    → i < j
    → j < i + 256
    → get_elem? (ports initial rs) i ≡ some p
    → get_elem? (ports initial rs) j ≡ some q
    → (p ≢ q) × (58026 ≤ p) × (p ≤ 58281)
unfolding initial
ports_distinct rs i j p q lt near ep eq = ground (
  arith,
  ports_lem initial rs i (omega arith) (port_in_range initial rs i ep),
  ports_lem initial rs j (omega arith) (port_in_range initial rs j eq),
)
