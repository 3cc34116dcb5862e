-- ===== src/Http/Expiry.antt =====
-- What `run_with_timeout` of src/http/timer.rs comes to in time: the future is awaited up to the
-- deadline.
use ra6m3_rtic.Prelude.{
  ℕ, ◌+◌, ◌≡◌, ◌∙◌, refl, sym, ap, Bool, true, false, Option, none, some, [], ◌∷◌, Result, ok, err,
  ltb, arith,
}
use ra6m3_rtic.Smoltcp.{Smoltcp}
use ra6m3_rtic.PollShare.{World, M}
use ra6m3_rtic.Future.{Poll, ready, pending, Schedule, proceed, await}
use ra6m3_rtic.Http.Timer.{
  TimeoutError, timeout_error, embassy_timeout, Time, TimeLaws, limited, map_err, run_with_timeout,
}
use ra6m3_rtic.Http.Clock.{Timed, Driven, polled, last_poll, drive, cut}

module _ {smol : Smoltcp} {A X : Type 0} where
  -- The answer without its instant.
  abbrev pub forget : Option (Driven smol A X × World smol) → Option ((Option A × X) × World smol)
  forget none = none
  forget (some ((r, _), w)) = some (r, w)

  -- A future that is pending at the end of its schedule has timed out.
  abbrev pub expired :
      Option ((Option A × X) × World smol)
      → Option ((Option (Result A TimeoutError) × X) × World smol)
  expired none = none
  expired (some ((some a, x), w)) = some ((some (ok a), x), w)
  expired (some ((none, x), w)) = some ((some (err timeout_error), x), w)

  await-elim :
      (p : X → M smol (Poll A × X)) (x : X) (b : Bool) (l : Schedule smol) (w : World smol)
      → await p x (elim b [ true ↦ l | false ↦ [] ]) w
        ≡ elim b [ true ↦ await p x l w | false ↦ await p x [] w ]
  await-elim p x true l w = refl
  await-elim p x false l w = refl

module _ {smol : Smoltcp} {A X : Type 0} where
  map_limited :
      (time : Time smol) (b : Bool) (r : Option ((Poll A × X) × World smol))
      → (elim (limited embassy_timeout b r) [
        | none ↦ none
        | some ((r', x'), w') ↦ some ((map_err time r', x'), w')
      ])
        ≡ limited timeout_error b r
  map_limited time b none = refl
  map_limited time b (some ((ready a, x), w)) = refl
  map_limited time true (some ((pending, x), w)) = refl
  map_limited time false (some ((pending, x), w)) = refl

  -- One poll: what the poll of the future answers, and what happens then.
  forget-polled :
      (b : Bool) (r : Option ((Poll A × X) × World smol)) (now : ℕ) (sched : Timed smol)
      (again : X → M smol (Driven smol (Result A TimeoutError) X))
      (next : X → M smol (Option A × X))
      → (b ≡ true → (x : X) (w : World smol) → forget (again x w) ≡ expired (next x w))
      → forget (polled now sched again (limited timeout_error b r))
        ≡ expired
            (elim b [ true ↦ proceed next r | false ↦ proceed (λ x w. some ((none, x), w)) r ])
  forget-polled true none now sched again next h = refl
  forget-polled false none now sched again next h = refl
  forget-polled true (some ((ready a, x), w)) now sched again next h = refl
  forget-polled false (some ((ready a, x), w)) now sched again next h = refl
  forget-polled true (some ((pending, x), w)) now sched again next h = h refl x w
  forget-polled false (some ((pending, x), w)) now sched again next h = refl

-- In ticks.
abbrev pub deadline : {smol : Smoltcp} (time : Time smol) → time.Duration → ℕ → ℕ
deadline time duration start = start + time.embassy_from_millis (time.as_millis duration)

module _ {smol : Smoltcp} (time : Time smol) (laws : TimeLaws time) {A X : Type 0}
    (p : X → M smol (Poll A × X)) (duration : time.Duration) (start : ℕ) where
  abbrev end : ℕ
  end = deadline time duration start

  abbrev timed : ℕ → X → M smol (Poll (Result A TimeoutError) × X)
  timed = run_with_timeout time duration p start

  pub run_with_timeout_lem :
      (now : ℕ) (x : X) (w : World smol)
      → run_with_timeout time duration p start now x w ≡ limited timeout_error (ltb now end) (p x w)
  unfolding run_with_timeout
  run_with_timeout_lem now x w =
      ap (λ r. elim r [ none ↦ none | some ((r', x'), w') ↦ some ((map_err time r', x'), w') ])
        (laws.timeout p (time.embassy_from_millis (time.as_millis duration)) start now x w)
      ∙ map_limited time (ltb now end) (p x w)

  one_poll :
      (now : ℕ) (sched : Timed smol) (again : X → M smol (Driven smol (Result A TimeoutError) X))
      (env : World smol → World smol) (l : Schedule smol) (x : X) (w : World smol)
      → (ltb now end ≡ true
          → (x : X) (w : World smol) → forget (again x w) ≡ expired (await p x l (env w)))
      → forget (polled now sched again (timed now x w))
        ≡ expired (await p x (elim (ltb now end) [ true ↦ env ∷ l | false ↦ [] ]) w)
  unfolding await
  one_poll now sched again env l x w h =
      ap (λ r. forget (polled now sched again r)) (run_with_timeout_lem now x w)
      ∙ forget-polled (ltb now end) (p x w) now sched again (λ x' w'. await p x' l (env w')) h
      ∙ ap expired (sym (await-elim p x (ltb now end) (env ∷ l) w))

  -- The poll at the end is the last one.
  forget-last_poll :
      (sched : Timed smol) (x : X) (w : World smol)
      → forget (last_poll timed end sched x w) ≡ expired (await p x [] w)
  forget-last_poll sched x w =
      one_poll end sched (λ x' w'. some (((none, x'), (end, sched)), w')) (λ w. w) [] x w
        (λ e. absurd (ground (arith, e)))
      ∙ ap (λ l. expired (await p x l w)) (ground arith)

  later :
      (b : Bool) (now t : ℕ) (env : World smol → World smol) (rest : Timed smol) (x : X)
      (w : World smol)
      → ((x : X) (w : World smol)
          → forget (drive timed end t x rest w) ≡ expired (await p x (cut end t rest) w))
      → forget (
          polled now
            ((t, env) ∷ rest)
            (λ x' w'. elim b [
              | true ↦ drive timed end t x' rest (env w')
              | false ↦ last_poll timed end ((t, env) ∷ rest) x' w'
            ])
            (timed now x w))
        ≡ expired (
            await p x
              (elim (ltb now end) [
                | true ↦ elim b [ true ↦ env ∷ cut end t rest | false ↦ (λ w. w) ∷ [] ]
                | false ↦ []
              ])
              w)
  later true now t env rest x w h =
      one_poll now ((t, env) ∷ rest) (λ x' w'. drive timed end t x' rest (env w')) env
        (cut end t rest) x w (λ _ x' w'. h x' (env w'))
  later false now t env rest x w h =
      one_poll now ((t, env) ∷ rest) (last_poll timed end ((t, env) ∷ rest)) (λ w. w) [] x w
        (λ _. forget-last_poll ((t, env) ∷ rest))

  drive_from :
      (now : ℕ) (x : X) (sched : Timed smol) (w : World smol)
      → forget (drive timed end now x sched w) ≡ expired (await p x (cut end now sched) w)
  unfolding drive cut
  drive_from now x [] w =
      one_poll now [] (last_poll timed end []) (λ w. w) [] x w (λ _. forget-last_poll [])
  drive_from now x ((t, env) ∷ rest) w =
      later (ltb t end) now t env rest x w λ x' w'. drive_from t x' rest w'

-- `run_with_timeout`, run in time, answers as the future does that is awaited over the changes
-- before the deadline and polled at the deadline once more: with its answer if it has one by then,
-- else with the timeout. The deadline is the duration, converted to ticks, behind the start; with no
-- time left there is one poll only. embassy-time keeps to its documentation.
pub drive-run_with_timeout :
    {smol : Smoltcp} (time : Time smol)
    → TimeLaws time
    → {A X : Type 0} (p : X → M smol (Poll A × X)) (duration : time.Duration) (start : ℕ) (x : X)
      (sched : Timed smol) (w : World smol)
    → forget (
        drive
          (run_with_timeout time duration p start)
          (deadline time duration start)
          start
          x
          sched
          w)
      ≡ expired (await p x (cut (deadline time duration start) start sched) w)
drive-run_with_timeout time laws p duration start = drive_from time laws p duration start start
