-- ===== src/Tests/Scheduling.antt =====
-- Tasks that preempt each other.
use ra6m3_rtic.Prelude.{◌≤◌, List, [], ◌∷◌, arith}
use ra6m3_rtic.Prelude.Lists.{length}
use ra6m3_rtic.Main.Priorities.{
  Task, mqtt_task, http_task, ethernet_isr, blinky, network_poller, priority, Frame, unlocked,
  starts, Reach, idle, next,
}
use ra6m3_rtic.Main.Levels.{On, stack_levels}

abbrev started : Task → Frame
started t = record { task = t; locked = unlocked }

-- The poller has preempted `blinky`, which has preempted `http_task`.
abbrev three : List Frame
three = started network_poller ∷ started blinky ∷ started http_task ∷ []

three-Reach : Reach three
unfolding priority
three-Reach =
    next
      (next (next idle (starts http_task [] tt))
        (starts blinky (started http_task ∷ []) ((omega arith, λ r e. cc), tt)))
      (starts network_poller (started blinky ∷ started http_task ∷ [])
        ((omega arith, λ r e. cc), ((omega arith, λ r e. cc), tt)))

stack_levels_example :
    (length three ≤ 4)
    × (On mqtt_task three → On http_task three → ⊥)
    × (On ethernet_isr three → On network_poller three → ⊥)
stack_levels_example = stack_levels three-Reach
