-- ===== src/Http/Within.antt =====
-- A future that keeps an invariant while it is pending, and answers at its deadline, ends by then.
use mathlib.Core.Path.{subst}
use ra6m3_rtic.Prelude.{
  ℕ, ◌≤◌, ◌≡◌, refl, sym, ap, ◌∙◌, Bool, true, false, Option, none, some, [], ◌∷◌, Result, ok, err,
  ltb, arith,
}
use ra6m3_rtic.Smoltcp.{Smoltcp}
use ra6m3_rtic.PollShare.{World, M}
use ra6m3_rtic.Future.{Poll, ready, pending}
use ra6m3_rtic.Future.Laws.{Progress, Answers}
use ra6m3_rtic.Http.Timer.{Time, TimeLaws, TimeoutError, timeout_error, limited, run_with_timeout}
use ra6m3_rtic.Http.Clock.{Timed, Driven, polled, last_poll, drive}
use ra6m3_rtic.Http.Expiry.{deadline, run_with_timeout_lem}

-- Every change keeps an invariant.
abbrev pub Always : {smol : Smoltcp} → (World smol → Type 0) → Timed smol → Type 0
Always J [] = Unit
Always J ((t, env) ∷ rest) = ((w : World _) → J w → J (env w)) × Always J rest

module _ {smol : Smoltcp} (J : World smol → Type 0) (K : Timed smol → Type 0) {A X : Type 0}
    (Q : A → X → World smol → Type 0) where
  -- There is an answer under `Q` by the limit, and `K` holds of the changes to come.
  abbrev pub Within : ℕ → Option (Driven smol A X × World smol) → Type 0
  Within limit none = ⊥
  Within limit (some (((none, x), at), w)) = ⊥
  Within limit (some (((some a, x), (t, rest)), w)) = Q a x w × (t ≤ limit) × K rest

  Within-elim :
      (limit : ℕ) (b : Bool) (r s : Option (Driven smol A X × World smol))
      → (b ≡ true → Within limit r)
      → Within limit s
      → Within limit (elim b [ true ↦ r | false ↦ s ])
  Within-elim limit true r s h k = h refl
  Within-elim limit false r s h k = k

  module _ (limit now : ℕ) (sched : Timed smol) (always : K sched) (soon : now ≤ limit)
      (again : X → M smol (Driven smol A X)) where
    polled-Within :
        (r : Option ((Poll A × X) × World smol))
        → ((x : X) (w : World smol) → J w → Within limit (again x w))
        → Progress (λ _ w. J w) Q r
        → Within limit (polled now sched again r)
    polled-Within none k h = h
    polled-Within (some ((ready a, x), w)) k h = (h, soon, always)
    polled-Within (some ((pending, x), w)) k h = k x w h

    polled_of_Answers :
        (r : Option ((Poll A × X) × World smol))
        → Answers r
        → Progress (λ _ w. J w) Q r
        → Within limit (polled now sched again r)
    polled_of_Answers none k h = h
    polled_of_Answers (some ((ready a, x), w)) k h = (h, soon, always)
    polled_of_Answers (some ((pending, x), w)) k h = absurd k

  module _ (p : ℕ → X → M smol (Poll A × X)) (limit : ℕ)
      (step : (now : ℕ) (x : X) (w : World smol) → J w → Progress (λ _ w. J w) Q (p now x w))
      (done : (x : X) (w : World smol) → J w → Answers (p limit x w))
      (keeps : (t : ℕ) (env : World smol → World smol) (rest : Timed smol)
        → K ((t, env) ∷ rest)
        → ((w : World smol) → J w → J (env w)) × K rest) where
    last_poll-Within :
        (sched : Timed smol) (x : X) (w : World smol)
        → K sched
        → J w
        → Within limit (last_poll p limit sched x w)
    last_poll-Within sched x w always h =
        polled_of_Answers limit limit sched always (omega arith)
          (λ x' w'. some (((none, x'), (limit, sched)), w')) (p limit x w) (done x w h)
          (step limit x w h)

    pub drive-Within :
        (now : ℕ) (x : X) (sched : Timed smol) (w : World smol)
        → K sched
        → now ≤ limit
        → J w
        → Within limit (drive p limit now x sched w)
    unfolding drive
    drive-Within now x [] w always soon h =
        polled-Within limit now [] always soon (last_poll p limit []) (p now x w)
          (λ x' w'. last_poll-Within [] x' w' always) (step now x w h)
    drive-Within now x ((t, env) ∷ rest) w always soon h =
        polled-Within limit now ((t, env) ∷ rest) always soon _ (p now x w)
          (λ x' w' h'.
            Within-elim limit (ltb t limit) _ _
              (λ early.
                let (stays, later) = keeps t env rest always in
                drive-Within t x' rest (env w') later (ground (arith, early)) (stays w' h'))
              (last_poll-Within ((t, env) ∷ rest) x' w' always h'))
          (step now x w h)

module _ {smol : Smoltcp} (J : World smol → Type 0) {A X : Type 0}
    (Q : A → X → World smol → Type 0) where
  -- The answers of a future under a timeout.
  abbrev pub OrLate : Result A TimeoutError → X → World smol → Type 0
  OrLate (ok a) x w = Q a x w
  OrLate (err _) x w = J w

  limited-Progress :
      (b : Bool) (r : Option ((Poll A × X) × World smol))
      → Progress (λ _ w. J w) Q r
      → Progress (λ _ w. J w) OrLate (limited timeout_error b r)
  limited-Progress b none h = h
  limited-Progress b (some ((ready a, x), w)) h = h
  limited-Progress true (some ((pending, x), w)) h = h
  limited-Progress false (some ((pending, x), w)) h = h

  limited-Answers :
      (r : Option ((Poll A × X) × World smol))
      → Progress (λ _ w. J w) Q r
      → Answers (limited timeout_error false r)
  limited-Answers none h = h
  limited-Answers (some ((ready a, x), w)) h = tt
  limited-Answers (some ((pending, x), w)) h = tt

  module _ (time : Time smol) (laws : TimeLaws time) (p : X → M smol (Poll A × X))
      (duration : time.Duration) (start : ℕ) (x : X) (w : World smol)
      (h : Progress (λ _ w. J w) Q (p x w)) where
    pub run_with_timeout-Progress :
        (now : ℕ) → Progress (λ _ w. J w) OrLate (run_with_timeout time duration p start now x w)
    run_with_timeout-Progress now =
        subst (Progress (λ _ w. J w) OrLate)
          (sym (run_with_timeout_lem time laws p duration start now x w))
          (limited-Progress _ (p x w) h)

    pub run_with_timeout-Answers :
        Answers (run_with_timeout time duration p start (deadline time duration start) x w)
    run_with_timeout-Answers =
        let end = deadline time duration start in
        let over : ltb end end ≡ false = ground arith in
        subst Answers
          (sym (
            run_with_timeout_lem time laws p duration start end x w
            ∙ ap (λ b. limited timeout_error b (p x w)) over))
          (limited-Answers (p x w) h)
