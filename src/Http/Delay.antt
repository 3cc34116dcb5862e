-- ===== src/Http/Delay.antt =====
-- When the `delay` of src/http/timer.rs ends.
use mathlib.Core.Path.{subst}
use ra6m3_rtic.Prelude.{
  ℕ, ◌≤◌, ◌≡◌, refl, sym, Bool, true, false, Option, none, some, [], ◌∷◌, ltb, arith,
}
use ra6m3_rtic.Smoltcp.{Smoltcp}
use ra6m3_rtic.PollShare.{World, M}
use ra6m3_rtic.Future.{Poll, ready, pending}
use ra6m3_rtic.Http.Timer.{Time, TimeLaws, delay}
use ra6m3_rtic.Http.Clock.{Timed, Driven, polled, last_poll, drive}
use ra6m3_rtic.Http.Expiry.{deadline}

module _ {smol : Smoltcp} where
  -- There is an answer, at this instant.
  abbrev pub EndsAt : ℕ → Option (Driven smol (Unit {0}) (Unit {0}) × World smol) → Type 0
  EndsAt limit none = ⊥
  EndsAt limit (some (((none, x), at), w)) = ⊥
  EndsAt limit (some (((some a, x), (t, rest)), w)) = t ≡ limit

  polled-EndsAt :
      (b : Bool) (limit now : ℕ) (sched : Timed smol)
      (again : Unit {0} → M smol (Driven smol (Unit {0}) (Unit {0}))) (w : World smol)
      → (b ≡ true → EndsAt limit (again tt w))
      → (b ≡ false → now ≡ limit)
      → EndsAt limit
          (polled now sched again (some ((elim b [ true ↦ pending | false ↦ ready tt ], tt), w)))
  polled-EndsAt true limit now sched again w h k = h refl
  polled-EndsAt false limit now sched again w h k = k refl

  EndsAt-elim :
      (limit : ℕ) (b : Bool) (r s : Option (Driven smol (Unit {0}) (Unit {0}) × World smol))
      → (b ≡ true → EndsAt limit r)
      → EndsAt limit s
      → EndsAt limit (elim b [ true ↦ r | false ↦ s ])
  EndsAt-elim limit true r s h k = h refl
  EndsAt-elim limit false r s h k = k

  module _ (time : Time smol) (laws : TimeLaws time) (duration : time.Duration) (start : ℕ) where
    abbrev end : ℕ
    end = deadline time duration start

    -- A poll of the delay.
    abbrev pub waits : ℕ → Unit {0} → M smol (Poll (Unit {0}) × Unit {0})
    waits now x w = some ((delay time duration start now, x), w)

    one_poll :
        (now : ℕ) (sched : Timed smol)
        (again : Unit {0} → M smol (Driven smol (Unit {0}) (Unit {0}))) (w : World smol)
        → now ≤ end
        → (ltb now end ≡ true → EndsAt end (again tt w))
        → EndsAt end (polled now sched again (waits now tt w))
    unfolding delay
    one_poll now sched again w soon h =
        subst (λ r. EndsAt end (polled now sched again (some ((r, tt), w))))
          (sym (laws.after (time.as_millis duration) start now))
          (polled-EndsAt (ltb now end) end now sched again w h (λ e. ground (arith, e)))

    last_poll-EndsAt :
        (sched : Timed smol) (w : World smol) → EndsAt end (last_poll waits end sched tt w)
    last_poll-EndsAt sched w =
        one_poll end sched _ w (omega arith) (λ e. absurd (ground (arith, e)))

    -- Whatever changes meanwhile, `delay` ends exactly at its deadline: the duration, converted to
    -- ticks, behind its start.
    pub delay-EndsAt :
        (now : ℕ) (sched : Timed smol) (w : World smol)
        → now ≤ deadline time duration start
        → EndsAt
            (deadline time duration start)
            (drive waits (deadline time duration start) now tt sched w)
    unfolding drive
    delay-EndsAt now [] w soon =
        one_poll now [] (last_poll waits end []) w soon (λ _. last_poll-EndsAt [] w)
    delay-EndsAt now ((t, env) ∷ rest) w soon = one_poll now ((t, env) ∷ rest) _ w soon λ _.
        EndsAt-elim end (ltb t end) _ _
          (λ early. delay-EndsAt t rest (env w) (ground (arith, early)))
          (last_poll-EndsAt ((t, env) ∷ rest) w)
