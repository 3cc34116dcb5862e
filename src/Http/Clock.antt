-- ===== src/Http/Clock.antt =====
-- How a future with a timer runs in time: the changes around it have their instants, and the timer
-- wakes the task at its deadline.
use ra6m3_rtic.Prelude.{ℕ, true, false, Option, none, some, List, [], ◌∷◌, ltb}
use ra6m3_rtic.Smoltcp.{Smoltcp}
use ra6m3_rtic.PollShare.{World, M}
use ra6m3_rtic.Future.{Poll, ready, pending, Schedule}

-- The changes of the store with their instants, in ticks.
abbrev pub Timed : Smoltcp → Type 0
Timed smol = List (ℕ × (World smol → World smol))

-- An answer, if there is one, with the state of the future; then the instant, and the changes that
-- are to come.
abbrev pub Driven : Smoltcp → Type 0 → Type 0 → Type 0
Driven smol A X = (Option A × X) × (ℕ × Timed smol)

module _ {smol : Smoltcp} {A X : Type 0} where
  abbrev pub polled :
      ℕ
      → Timed smol
      → (X → M smol (Driven smol A X))
      → Option ((Poll A × X) × World smol)
      → Option (Driven smol A X × World smol)
  polled now sched again none = none
  polled now sched again (some ((ready a, x), w)) = some (((some a, x), (now, sched)), w)
  polled now sched again (some ((pending, x), w)) = again x w

  -- The poll that the timer wakes the task for.
  abbrev pub last_poll :
      (ℕ → X → M smol (Poll A × X)) → ℕ → Timed smol → X → M smol (Driven smol A X)
  last_poll p deadline sched x w =
      polled deadline sched (λ x' w'. some (((none, x'), (deadline, sched)), w')) (p deadline x w)

  -- A poll at once, one after each change before the deadline, and one at the deadline.
  unfoldable pub drive :
      (ℕ → X → M smol (Poll A × X)) → ℕ → ℕ → X → Timed smol → M smol (Driven smol A X)
  drive p deadline now x [] w = polled now [] (λ x' w'. last_poll p deadline [] x' w') (p now x w)
  drive p deadline now x ((t, env) ∷ rest) w =
      polled now ((t, env) ∷ rest)
        (λ x' w'. elim (ltb t deadline) [
          | true ↦ drive p deadline t x' rest (env w')
          | false ↦ last_poll p deadline ((t, env) ∷ rest) x' w'
        ])
        (p now x w)

-- The changes up to a deadline, and the wake at the deadline, as a schedule without instants;
-- nothing is left of it where no time is left.
unfoldable pub cut : {smol : Smoltcp} → ℕ → ℕ → Timed smol → Schedule smol
cut deadline now [] = elim (ltb now deadline) [ true ↦ (λ w. w) ∷ [] | false ↦ [] ]
cut deadline now ((t, env) ∷ rest) = elim (ltb now deadline) [
  | true ↦ elim (ltb t deadline) [ true ↦ env ∷ cut deadline t rest | false ↦ (λ w. w) ∷ [] ]
  | false ↦ []
]
