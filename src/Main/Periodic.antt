-- ===== src/Main/Periodic.antt =====
-- src/main.rs: the loops of `blinky` and `network_link_poll`. `millis` converts to ticks of the
-- monotonic; `usize` has 32 bits on this target.
use ra6m3_rtic.Prelude.{ℕ, zero, suc, ◌+◌, ◌%◌, ◌^◌, Bool, ◌||◌, List, [], ◌∷◌, ◌==◌}

-- One round of `blinky`: the port is set (or reset), and the task sleeps until a time.
pub record Blink : Type 0 where
  pub lit : Bool
  pub sleeps_until : ℕ

abbrev pub period_ms : ℕ
period_ms = 100

-- `phase == 0 || phase == 2`, which drives `posr` rather than `porr`.
unfoldable pub is_lit : ℕ → Bool
is_lit i = let phase = i % 8 in phase == 0 || phase == 2

-- The first rounds of `blinky`, from the counter `i` and the time `next`.
unfoldable pub blinky : (ℕ → ℕ) → ℕ → ℕ → ℕ → List Blink
unfolding is_lit
blinky millis zero i next = []
blinky millis (suc rounds) i next =
    let later = next + millis period_ms in
    record { lit = is_lit i; sleeps_until = later } ∷ blinky millis rounds ((i + 1) % 2 ^ 32) later

-- The times at which `network_link_poll` polls the link, in its first rounds.
unfoldable pub link_polls : (ℕ → ℕ) → ℕ → ℕ → List ℕ
link_polls millis zero next = []
link_polls millis (suc rounds) next =
    let later = next + millis 100 in later ∷ link_polls millis rounds later
