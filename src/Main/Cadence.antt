-- ===== src/Main/Cadence.antt =====
-- The periodic tasks of src/main.rs keep their period and their pattern.
use ra6m3_rtic.Prelude.{
  ℕ, zero, suc, ◌+◌, ◌*◌, ◌%◌, ◌^◌, ◌<◌, ◌≡◌, ◌∙◌, refl, ap, Bool, Option, some, arith,
}
use ra6m3_rtic.Prelude.Lists.{get_elem?}
use ra6m3_rtic.Main.Periodic.{Blink, period_ms, is_lit, blinky, link_polls}

-- The counter is only read modulo 8, and 8 divides 2 ^ 32.
is_lit-wrap : (i k : ℕ) → is_lit ((i + 1) % 2 ^ 32 + k) ≡ is_lit (i + suc k)
unfolding is_lit
is_lit-wrap i k = let e : ((i + 1) % 2 ^ 32 + k) % 8 ≡ (i + suc k) % 8 = omega arith in rw e refl

Blink-eq :
    {a b : Bool} {m n : ℕ}
    → a ≡ b
    → m ≡ n
    → ◌≡◌ {A = Option Blink}
        (some (record { lit = a; sleeps_until = m }))
        (some (record { lit = b; sleeps_until = n }))
Blink-eq e f = cc

is_lit_here : (i : ℕ) → is_lit i ≡ is_lit (i + 0)
unfolding is_lit
is_lit_here i = let e : i % 8 ≡ (i + 0) % 8 = omega arith in rw e refl

-- In round `k` the LED is lit by the phase of `i + k`, also after the counter has wrapped, and the
-- round ends exactly `k + 1` periods after the start: the delays do not drift.
pub blinky_round :
    (millis : ℕ → ℕ) (rounds i next k : ℕ)
    → k < rounds
    → get_elem? (blinky millis rounds i next) k
      ≡ some (record { lit = is_lit (i + k); sleeps_until = next + suc k * millis period_ms })
unfolding blinky
blinky_round millis zero i next k h = absurd (omega arith)
blinky_round millis (suc rounds) i next zero h = Blink-eq (is_lit_here i) (omega arith)
blinky_round millis (suc rounds) i next (suc k) h =
    blinky_round millis rounds ((i + 1) % 2 ^ 32) (next + millis period_ms) k (omega arith)
    ∙ Blink-eq (is_lit-wrap i k) (omega arith)

-- The link is polled at the multiples of 100 ms after the start.
pub link_polls_round :
    (millis : ℕ → ℕ) (rounds next k : ℕ)
    → k < rounds
    → get_elem? (link_polls millis rounds next) k ≡ some (next + suc k * millis 100)
unfolding link_polls
link_polls_round millis zero next k h = absurd (omega arith)
link_polls_round millis (suc rounds) next zero h = ap some (omega arith)
link_polls_round millis (suc rounds) next (suc k) h =
    link_polls_round millis rounds (next + millis 100) k (omega arith) ∙ ap some (omega arith)
