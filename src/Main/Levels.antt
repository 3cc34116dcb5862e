-- ===== src/Main/Levels.antt =====
-- Which tasks of src/main.rs can have been started at the same time.
use mathlib.Core.Path.{subst}
use ra6m3_rtic.Prelude.{
  ℕ, ◌≤◌, ◌<◌, ◌≡◌, ◌≢◌, ◌∙◌, ◌⊎◌, refl, sym, inl, inr, List, [], ◌∷◌, ltb, arith, if◌then◌else◌,
}
use ra6m3_rtic.Prelude.Lists.{length}
use ra6m3_rtic.Main.Priorities.{
  Task, mqtt_task, http_task, ethernet_isr, network_poller, network_link_poll, blinky,
  gpt8_cycle_end, gpt8_compare_a, gpt8_compare_b, gpt9_cycle_end, gpt9_compare_a, gpt9_compare_b,
  priority, Frame, AllAbove, Reach,
}
use ra6m3_rtic.Main.Ceiling.{IsStacked, Reach-IsStacked}

priority_cases :
    (t : Task) → (priority t ≡ 1) ⊎ (priority t ≡ 2) ⊎ (priority t ≡ 4) ⊎ (priority t ≡ 5)
unfolding priority
priority_cases mqtt_task = inl refl
priority_cases http_task = inl refl
priority_cases ethernet_isr = inr (inr (inl refl))
priority_cases network_poller = inr (inr (inl refl))
priority_cases network_link_poll = inl refl
priority_cases blinky = inr (inl refl)
priority_cases gpt8_cycle_end = inr (inr (inr refl))
priority_cases gpt8_compare_a = inr (inr (inr refl))
priority_cases gpt8_compare_b = inr (inr (inr refl))
priority_cases gpt9_cycle_end = inr (inr (inr refl))
priority_cases gpt9_compare_a = inr (inr (inr refl))
priority_cases gpt9_compare_b = inr (inr (inr refl))

-- The place of a priority among the four.
abbrev level : ℕ → ℕ
level p = if ltb p 2 then 1 else if ltb p 4 then 2 else if ltb p 5 then 3 else 4

level_lt : (t u : Task) → priority t < priority u → level (priority t) < level (priority u)
level_lt t u lt = ground (arith, priority_cases t, priority_cases u)

level_bound : (t : Task) → level (priority t) ≤ 4
level_bound t = ground (arith, priority_cases t)

depth :
    (f : Frame) (fs : List Frame) → IsStacked (f ∷ fs) → length (f ∷ fs) ≤ level (priority f.task)
depth f [] s = ground (arith, priority_cases f.task)
depth f (g ∷ gs) (k, ((high, _), above), s) =
    omega (arith, level_lt g.task f.task high, depth g gs s)

depth_bounded : (fs : List Frame) → IsStacked fs → length fs ≤ 4
depth_bounded [] s = omega arith
depth_bounded (f ∷ fs) s = omega (arith, depth f fs s, level_bound f.task)

-- The task is on the stack.
abbrev pub On : Task → List Frame → Type 0
On t [] = ⊥
On t (f ∷ fs) = (f.task ≡ t) ⊎ On t fs

On-lower : (t : Task) (p : ℕ) (fs : List Frame) → On t fs → AllAbove p fs → priority t < p
On-lower t p [] o above = absurd o
On-lower t p (f ∷ fs) (inl e) above = subst (λ u. priority u < p) e above.0.0
On-lower t p (f ∷ fs) (inr o) above = On-lower t p fs o above.1

-- Tasks of one priority do not preempt each other.
never_both :
    (t u : Task) (fs : List Frame)
    → priority t ≡ priority u
    → t ≢ u
    → IsStacked fs
    → On t fs
    → On u fs
    → ⊥
never_both t u [] same ne s o p = o
never_both t u (f ∷ fs) same ne s (inl e) (inl e') = ne (sym e ∙ e')
never_both t u (f ∷ fs) same ne (_, above, s) (inl e) (inr p) =
    omega
      (arith, same, On-lower u (priority t) fs p (subst (λ v. AllAbove (priority v) fs) e above))
never_both t u (f ∷ fs) same ne (_, above, s) (inr o) (inl e) =
    omega
      (arith, same, On-lower t (priority u) fs o (subst (λ v. AllAbove (priority v) fs) e above))
never_both t u (f ∷ fs) same ne (_, above, s) (inr o) (inr p) = never_both t u fs same ne s o p

-- In every state that the system can reach at most four tasks have been started, whatever preempts
-- what. `mqtt_task` and `http_task` are never both among them, nor are `ethernet_isr` and
-- `network_poller`: neither of the two preempts the other.
pub stack_levels :
    {fs : List Frame}
    → Reach fs
    → (length fs ≤ 4)
      × (On mqtt_task fs → On http_task fs → ⊥)
      × (On ethernet_isr fs → On network_poller fs → ⊥)
unfolding priority
stack_levels {fs} reach =
    let stacked = Reach-IsStacked reach in
    (
      depth_bounded fs stacked,
      never_both mqtt_task http_task fs refl (λ e. cc) stacked,
      never_both ethernet_isr network_poller fs refl (λ e. cc) stacked,
    )
