-- ===== src/Future/Laws.antt =====
-- Rules for `await`: an invariant of the waiting future, and completion within the schedule.
use ra6m3_rtic.Prelude.{Option, none, some, [], ◌∷◌, ◌++◌}
use ra6m3_rtic.Smoltcp.{Smoltcp}
use ra6m3_rtic.PollShare.{World, M}
use ra6m3_rtic.Future.{Poll, ready, pending, Schedule, proceed, await}

-- Every change on the schedule keeps the invariant.
abbrev pub Keeps :
    {smol : Smoltcp} {X : Type 0} → (X → World smol → Type 0) → Schedule smol → Type 0
Keeps I [] = Unit
Keeps {X = X} I (env ∷ rest) = ((x : X) (w : World _) → I x w → I x (env w)) × Keeps I rest

-- Every change on the schedule, made while the task waits under `L`, leads to `I`.
abbrev pub Leads :
    {smol : Smoltcp} {X : Type 0}
    → (X → World smol → Type 0)
    → (X → World smol → Type 0)
    → Schedule smol
    → Type 0
Leads L I [] = Unit
Leads {X = X} L I (env ∷ rest) = ((x : X) (w : World _) → L x w → I x (env w)) × Leads L I rest

module _ {smol : Smoltcp} {A X : Type 0} where
  -- A poll answers `pending` under `I`, or it answers with a result under `Q`; it does not panic.
  abbrev pub Progress :
      (X → World smol → Type 0)
      → (A → X → World smol → Type 0)
      → Option ((Poll A × X) × World smol)
      → Type 0
  Progress I Q none = ⊥
  Progress I Q (some ((ready a, x), w)) = Q a x w
  Progress I Q (some ((pending, x), w)) = I x w

  -- The same of the whole wait.
  abbrev pub Waits :
      (X → World smol → Type 0)
      → (A → X → World smol → Type 0)
      → Option ((Option A × X) × World smol)
      → Type 0
  Waits I Q none = ⊥
  Waits I Q (some ((some a, x), w)) = Q a x w
  Waits I Q (some ((none, x), w)) = I x w

  proceed-Waits :
      (I : X → World smol → Type 0) (Q : A → X → World smol → Type 0)
      (again : X → M smol (Option A × X)) (r : Option ((Poll A × X) × World smol))
      → ((x : X) (w : World smol) → I x w → Waits I Q (again x w))
      → Progress I Q r
      → Waits I Q (proceed again r)
  proceed-Waits I Q again none k h = h
  proceed-Waits I Q again (some ((ready a, x), w)) k h = h
  proceed-Waits I Q again (some ((pending, x), w)) k h = k x w h

  pub await-Waits :
      (I : X → World smol → Type 0) (Q : A → X → World smol → Type 0) (p : X → M smol (Poll A × X))
      (x : X) (sched : Schedule smol) (w : World smol)
      → ((x : X) (w : World smol) → I x w → Progress I Q (p x w))
      → Keeps I sched
      → I x w
      → Waits I Q (await p x sched w)
  unfolding await
  await-Waits I Q p x [] w step keeps h =
      proceed-Waits I Q (λ x' w'. some ((none, x'), w')) (p x w) (λ x' w' i. i) (step x w h)
  await-Waits I Q p x (env ∷ rest) w step keeps h =
      proceed-Waits I Q (λ x' w'. await p x' rest (env w')) (p x w)
        (λ x' w' i. await-Waits I Q p x' rest (env w') step keeps.1 (keeps.0 x' w' i)) (step x w h)

  -- The wait ended with an answer.
  abbrev pub Answered : Option ((Option A × X) × World smol) → Type 0
  Answered none = ⊥
  Answered (some ((some a, x), w)) = Unit
  Answered (some ((none, x), w)) = ⊥

  -- A poll in `D` answers.
  abbrev pub Answers : Option ((Poll A × X) × World smol) → Type 0
  Answers none = ⊥
  Answers (some ((ready a, x), w)) = Unit
  Answers (some ((pending, x), w)) = ⊥

  proceed-Answered :
      (I : X → World smol → Type 0) (Q : A → X → World smol → Type 0)
      (again : X → M smol (Option A × X)) (r : Option ((Poll A × X) × World smol))
      → ((x : X) (w : World smol) → I x w → Answered (again x w))
      → Progress I Q r
      → Answered (proceed again r)
  proceed-Answered I Q again none k h = h
  proceed-Answered I Q again (some ((ready a, x), w)) k h = tt
  proceed-Answered I Q again (some ((pending, x), w)) k h = k x w h

  Answers-Answered :
      (again : X → M smol (Option A × X)) (r : Option ((Poll A × X) × World smol))
      → Answers r
      → Answered (proceed again r)
  Answers-Answered again none h = h
  Answers-Answered again (some ((ready a, x), w)) h = tt
  Answers-Answered again (some ((pending, x), w)) h = absurd h

  await_of_Answers :
      (p : X → M smol (Poll A × X)) (x : X) (sched : Schedule smol) (w : World smol)
      → Answers (p x w)
      → Answered (await p x sched w)
  unfolding await
  await_of_Answers p x [] w h = Answers-Answered (λ x' w'. some ((none, x'), w')) (p x w) h
  await_of_Answers p x (env ∷ rest) w h =
      Answers-Answered (λ x' w'. await p x' rest (env w')) (p x w) h

  -- A change after which every poll answers ends the wait, whatever stands on the schedule behind.
  -- A poll under `I` that does not answer leaves `L`, on which the change may rely.
  pub await-Answered :
      (I L D : X → World smol → Type 0) (Q : A → X → World smol → Type 0)
      (p : X → M smol (Poll A × X)) (x : X) (sched : Schedule smol) (env : World smol → World smol)
      (rest : Schedule smol) (w : World smol)
      → ((x : X) (w : World smol) → I x w → Progress L Q (p x w))
      → ((x : X) (w : World smol) → D x w → Answers (p x w))
      → Leads L I sched
      → ((x : X) (w : World smol) → L x w → D x (env w))
      → I x w
      → Answered (await p x (sched ++ env ∷ rest) w)
  unfolding await
  await-Answered I L D Q p x [] env rest w step sure keeps change h =
      proceed-Answered L Q (λ x' w'. await p x' rest (env w')) (p x w)
        (λ x' w' l. await_of_Answers p x' rest (env w') (sure x' (env w') (change x' w' l)))
        (step x w h)
  await-Answered I L D Q p x (e ∷ sched) env rest w step sure keeps change h =
      proceed-Answered L Q (λ x' w'. await p x' (sched ++ env ∷ rest) (e w')) (p x w)
        (λ x' w' l.
          await-Answered I L D Q p x' sched env rest (e w') step sure keeps.1 change
            (keeps.0 x' w' l))
        (step x w h)
