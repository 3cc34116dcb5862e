-- ===== src/Main/Priorities.antt =====
-- src/main.rs: the tasks of `app` with their priorities and the resources that they share, and how
-- RTIC runs them by its documentation: the tasks that have preempted each other are a stack.
use ra6m3_rtic.Prelude.{ℕ, ◌<◌, ◌≡◌, Bool, true, false, List, [], ◌∷◌, leb, if◌then◌else◌}

-- The tasks of `app`.
pub data Task : Type 0 where
  mqtt_task http_task ethernet_isr network_poller network_link_poll blinky : Task
  gpt8_cycle_end gpt8_compare_a gpt8_compare_b : Task
  gpt9_cycle_end gpt9_compare_a gpt9_compare_b : Task

-- The fields of `Shared`.
pub data Resource : Type 0 where
  net device : Resource

-- `priority = …`
unfoldable pub priority : Task → ℕ
priority mqtt_task = 1
priority http_task = 1
priority ethernet_isr = 4
priority network_poller = 4
priority network_link_poll = 1
priority blinky = 2
priority gpt8_cycle_end = 5
priority gpt8_compare_a = 5
priority gpt8_compare_b = 5
priority gpt9_cycle_end = 5
priority gpt9_compare_a = 5
priority gpt9_compare_b = 5

-- `shared = […]`
unfoldable pub shares : Task → Resource → Bool
shares mqtt_task net = true
shares http_task net = true
shares ethernet_isr device = true
shares network_poller net = true
shares network_poller device = true
shares network_link_poll device = true
shares _ _ = false

abbrev pub tasks : List Task
tasks =
    mqtt_task ∷ http_task ∷ ethernet_isr ∷ network_poller ∷ network_link_poll ∷ blinky
    ∷ gpt8_cycle_end ∷ gpt8_compare_a ∷ gpt8_compare_b ∷ gpt9_cycle_end ∷ gpt9_compare_a
    ∷ gpt9_compare_b ∷ []

abbrev pub max : ℕ → ℕ → ℕ
max a b = if leb a b then b else a

-- The highest priority of the tasks in a list that share a resource.
unfoldable pub ceiling_of : Resource → List Task → ℕ
unfolding shares priority
ceiling_of r [] = 0
ceiling_of r (t ∷ ts) = elim (shares t r) [
  | true ↦ max (priority t) (ceiling_of r ts)
  | false ↦ ceiling_of r ts
]

-- A task that has been started, and what it has locked.
pub record Frame : Type 0 where
  pub task : Task
  pub locked : Resource → Bool

abbrev pub same : Resource → Resource → Bool
same net net = true
same device device = true
same _ _ = false

abbrev pub set : Resource → Bool → (Resource → Bool) → Resource → Bool
set r b locked s = if same r s then b else locked s

-- A priority above a started task, and above the ceilings of what it has locked.
abbrev pub Above : ℕ → Frame → Type 0
Above p f = (priority f.task < p) × ((r : Resource) → f.locked r ≡ true → ceiling_of r tasks < p)

abbrev pub AllAbove : ℕ → List Frame → Type 0
AllAbove p [] = Unit
AllAbove p (f ∷ fs) = Above p f × AllAbove p fs

abbrev pub unlocked : Resource → Bool
unlocked r = false

-- What RTIC lets happen: a task starts only above all that run; the task on top runs, and it locks
-- what it shares; and it ends, or waits, with nothing locked.
pub data Step : List Frame → List Frame → Type 0 where
  starts :
      (t : Task) (fs : List Frame)
      → AllAbove (priority t) fs
      → Step fs (record { task = t; locked = unlocked } ∷ fs)
  locks :
      (f : Frame) (r : Resource) (fs : List Frame)
      → shares f.task r ≡ true
      → Step (f ∷ fs) (record f { locked = set r true f.locked } ∷ fs)
  unlocks :
      (f : Frame) (r : Resource) (fs : List Frame)
      → Step (f ∷ fs) (record f { locked = set r false f.locked } ∷ fs)
  ends : (f : Frame) (fs : List Frame) → ((r : Resource) → f.locked r ≡ false) → Step (f ∷ fs) fs

-- The stacks that can be reached from the idle processor.
pub data Reach : List Frame → Type 0 where
  idle : Reach []
  next : {fs gs : List Frame} → Reach fs → Step fs gs → Reach gs
