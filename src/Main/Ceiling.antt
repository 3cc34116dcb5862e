-- ===== src/Main/Ceiling.antt =====
-- What the priorities and the shared resources of src/main.rs come to under RTIC.
use mathlib.Core.Path.{subst}
use ra6m3_rtic.Prelude.{
  ℕ, ◌≤◌, ◌≡◌, ◌⊎◌, refl, inl, inr, Bool, true, false, List, [], ◌∷◌, arith, Bool-cases,
}
use ra6m3_rtic.Main.Priorities.{
  Task, mqtt_task, http_task, ethernet_isr, network_poller, network_link_poll, blinky,
  gpt8_cycle_end, gpt8_compare_a, gpt8_compare_b, gpt9_cycle_end, gpt9_compare_a, gpt9_compare_b,
  Resource, net, device, priority, shares, tasks, max, ceiling_of, Frame, set, AllAbove, Step,
  starts, locks, unlocks, ends, Reach, idle, next,
}

abbrev In : Task → List Task → Type 0
In t [] = ⊥
In t (u ∷ us) = (t ≡ u) ⊎ In t us

listed : (t : Task) → In t tasks
listed mqtt_task = inl refl
listed http_task = inr (inl refl)
listed ethernet_isr = inr (inr (inl refl))
listed network_poller = inr (inr (inr (inl refl)))
listed network_link_poll = inr (inr (inr (inr (inl refl))))
listed blinky = inr (inr (inr (inr (inr (inl refl)))))
listed gpt8_cycle_end = inr (inr (inr (inr (inr (inr (inl refl))))))
listed gpt8_compare_a = inr (inr (inr (inr (inr (inr (inr (inl refl)))))))
listed gpt8_compare_b = inr (inr (inr (inr (inr (inr (inr (inr (inl refl))))))))
listed gpt9_cycle_end = inr (inr (inr (inr (inr (inr (inr (inr (inr (inl refl)))))))))
listed gpt9_compare_a = inr (inr (inr (inr (inr (inr (inr (inr (inr (inr (inl refl))))))))))
listed gpt9_compare_b = inr (inr (inr (inr (inr (inr (inr (inr (inr (inr (inr (inl refl)))))))))))

max_left : (a b : ℕ) → a ≤ max a b
max_left a b = ground arith

max_right : (a b : ℕ) → b ≤ max a b
max_right a b = ground arith

cons_here : (b : Bool) (p c : ℕ) → b ≡ true → p ≤ (elim b [ true ↦ max p c | false ↦ c ])
cons_here true p c e = max_left p c
cons_here false p c e = absurd (ground (arith, e))

cons_there : (b : Bool) (p q c : ℕ) → q ≤ c → q ≤ (elim b [ true ↦ max p c | false ↦ c ])
cons_there true p q c h = omega (arith, max_right p c)
cons_there false p q c h = h

ceiling_bound :
    (r : Resource) (t : Task) (ts : List Task)
    → In t ts
    → shares t r ≡ true
    → priority t ≤ ceiling_of r ts
unfolding ceiling_of
ceiling_bound r t [] i e = absurd i
ceiling_bound r t (u ∷ us) (inl is) e =
    subst
      (λ v. priority t ≤ (elim (shares v r) [
        | true ↦ max (priority v) (ceiling_of r us)
        | false ↦ ceiling_of r us
      ]))
      is (cons_here (shares t r) (priority t) (ceiling_of r us) e)
ceiling_bound r t (u ∷ us) (inr i) e =
    cons_there (shares u r) (priority u) (priority t) (ceiling_of r us) (ceiling_bound r t us i e)

-- What a task has locked it shares; and what runs above it has a priority above it.
abbrev pub IsStacked : List Frame → Type 0
IsStacked [] = Unit
IsStacked (f ∷ fs) =
    ((r : Resource) → f.locked r ≡ true → shares f.task r ≡ true)
    × AllAbove (priority f.task) fs
    × IsStacked fs

set-shares :
    (f : Frame) (r : Resource) (b : Bool)
    → (b ≡ true → shares f.task r ≡ true)
    → ((s : Resource) → f.locked s ≡ true → shares f.task s ≡ true)
    → (s : Resource) → set r b f.locked s ≡ true
    → shares f.task s ≡ true
set-shares f net b h k net e = h e
set-shares f net b h k device e = k device e
set-shares f device b h k net e = k net e
set-shares f device b h k device e = h e

Step-IsStacked : {fs gs : List Frame} → Step fs gs → IsStacked fs → IsStacked gs
Step-IsStacked (starts t fs above) s = (λ r e. absurd (ground (arith, e)), above, s)
Step-IsStacked (locks f r fs may) (k, above, s) = (set-shares f r true (λ _. may) k, above, s)
Step-IsStacked (unlocks f r fs) (k, above, s) =
    (set-shares f r false (λ e. absurd (ground (arith, e))) k, above, s)
Step-IsStacked (ends f fs free) (k, above, s) = s

pub Reach-IsStacked : {fs : List Frame} → Reach fs → IsStacked fs
Reach-IsStacked idle = tt
Reach-IsStacked (next r s) = Step-IsStacked s (Reach-IsStacked r)

-- No task on the stack has locked the resource.
abbrev pub Free : Resource → List Frame → Type 0
Free r [] = Unit
Free r (f ∷ fs) = (f.locked r ≡ false) × Free r fs

below-Free :
    (r : Resource) (t : Task) (fs : List Frame)
    → shares t r ≡ true
    → AllAbove (priority t) fs
    → Free r fs
below-Free r t [] e above = tt
below-Free r t (f ∷ fs) e ((high, ceilings), above) = (
  elim (Bool-cases (f.locked r)) [
    | inl taken ↦ absurd (omega (arith, ceilings r taken, ceiling_bound r t tasks (listed t) e))
    | inr free ↦ free
  ],
  below-Free r t fs e above,
)

-- In every state that the system can reach, whatever task runs, no task that it has preempted has
-- locked a resource that it shares: a lock is never found taken, and while `net` or `device` is
-- locked no other task touches it.
pub shares-Free :
    {f : Frame} {fs : List Frame}
    → Reach (f ∷ fs)
    → (r : Resource) → shares f.task r ≡ true
    → Free r fs
shares-Free {f} {fs} reach r e =
    let (_, above, _) = Reach-IsStacked reach in below-Free r f.task fs e above
