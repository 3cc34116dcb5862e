-- ===== src/Main/Ends.antt =====
-- How proofs about the start-up run: what code of `Init` returns with, step by step.
use ra6m3_rtic.Prelude.{
  ◌≡◌, refl, ◌∙◌, ap, Bool, true, false, none, some, Option, ◌∷◌, arith, if◌then◌else◌, suc,
}
use ra6m3_rtic.Main.Boot.{
  Board, Boot, Ran, returned, panicked, Init, pure, expect, unwrap, mono_now, uptime, info, trace,
  start_mono, start_embassy,
}
use ra6m3_rtic.Main.Uptime.{uptime_us}

-- `m` does not panic, and what it returns with fulfils `Q`.
abbrev pub Answers : {H A : Type 0} → Ran H A → (A → Boot H → Type 0) → Type 0
Answers {H} {A} o Q = (a : A) × (b' : Boot H) × (o ≡ returned a b') × Q a b'

abbrev pub Ends : {H A : Type 0} → Init H A → Boot H → (A → Boot H → Type 0) → Type 0
Ends m b Q = Answers (m b) Q

module _ {H : Type 0} where
  pub Ends-pure :
      {A : Type 0} {Q : A → Boot H → Type 0} (a : A) (b : Boot H) → Q a b → Ends (pure a) b Q
  Ends-pure a b q = (a, b, refl, q)

  pub Ends-bind :
      {A B : Type 0} {Q : A → Boot H → Type 0} {R : B → Boot H → Type 0} {o : Ran H A}
      {f : A → Init H B}
      → Answers o Q
      → ((a : A) (b' : Boot H) → Q a b' → Ends (f a) b' R)
      → Answers (elim o [ panicked b' ↦ panicked b' | returned a b' ↦ f a b' ]) R
  Ends-bind {f} (a, b', e, q) k =
      let (c, b'', e', r) = k a b' q in
      (c, b'', ap (λ o. elim o [ panicked y ↦ panicked y | returned x y ↦ f x y ]) e ∙ e', r)

  Answers-if :
      {A : Type 0} {Q : A → Boot H → Type 0} (t : Bool) (o p : Ran H A)
      → (t ≡ true → Answers o Q)
      → (t ≡ false → Answers p Q)
      → Answers (if t then o else p) Q
  Answers-if true o p h k = h refl
  Answers-if false o p h k = k refl

  Ends-if :
      {A : Type 0} {Q : A → Boot H → Type 0} (t : Bool) (m k : Init H A) (b : Boot H)
      → Ends m b Q
      → Ends k b Q
      → Ends (if t then m else k) b Q
  Ends-if true m k b h i = h
  Ends-if false m k b h i = i

  pub Ends-expect :
      {Q : Unit {0} → Boot H → Type 0} (t : Bool) (b : Boot H)
      → t ≡ true
      → Q tt b
      → Ends (expect t) b Q
  Ends-expect true b h q = (tt, b, refl, q)
  Ends-expect false b h q = absurd (ground arith)

  pub Ends-unwrap :
      {A : Type 0} {Q : A → Boot H → Type 0} (o : Option A) (a : A) (b : Boot H)
      → o ≡ some a
      → Q a b
      → Ends (unwrap o) b Q
  Ends-unwrap none a b h q = absurd (ground arith)
  Ends-unwrap (some c) a b h q = (a, b, ap (λ o. unwrap o b) h, q)

-- The state after log lines and reads of the clock: nothing but the log and the count of reads has
-- changed.
pub record Logged {H : Type 0} (b b' : Boot H) : Type 0 where
  pub same_initialized : b'.initialized ≡ b.initialized
  pub same_started : b'.started ≡ b.started
  pub same_embassy : b'.embassy_started ≡ b.embassy_started
  pub same_spawned : b'.spawned ≡ b.spawned

module _ {H : Type 0} where
  pub Logged-refl : (b : Boot H) → Logged b b
  Logged-refl b = record {
    same_initialized = refl;
    same_started = refl;
    same_embassy = refl;
    same_spawned = refl;
  }

  pub Logged-trans : {b c d : Boot H} → Logged b c → Logged c d → Logged b d
  Logged-trans l k = record {
    same_initialized = k.same_initialized ∙ l.same_initialized;
    same_started = k.same_started ∙ l.same_started;
    same_embassy = k.same_embassy ∙ l.same_embassy;
    same_spawned = k.same_spawned ∙ l.same_spawned;
  }

  module _ (board : Board) where
    pub mono_now-Ends :
        (b : Boot H) → b.initialized ≡ true → Ends (mono_now board) b (λ _ b'. Logged b b')
    unfolding mono_now
    mono_now-Ends b h = (
      board.clock b.reads,
      record b { reads = suc b.reads },
      rw (h),
      record {
        same_initialized = refl;
        same_started = refl;
        same_embassy = refl;
        same_spawned = refl;
      },
    )

    pub uptime-Ends :
        (b : Boot H)
        → (b.started ≡ true → b.initialized ≡ true)
        → Ends (uptime board) b (λ _ b'. Logged b b')
    unfolding uptime
    uptime-Ends b ready =
        Answers-if b.started _ _
          (λ s.
            Ends-bind (mono_now-Ends b (ready s))
              λ n b' l. Ends-pure (uptime_us board.to_micros true n) b' l)
          (λ n. (uptime_us board.to_micros false 0, b, refl, Logged-refl b))

    pub info-Ends :
        (b : Boot H)
        → (b.started ≡ true → b.initialized ≡ true)
        → Ends (info board) b (λ _ b'. Logged b b')
    unfolding info
    info-Ends b ready = Ends-bind (uptime-Ends b ready) λ us b' l. (
      tt,
      record b' { stamps = us ∷ b'.stamps },
      refl,
      record {
        same_initialized = l.same_initialized;
        same_started = l.same_started;
        same_embassy = l.same_embassy;
        same_spawned = l.same_spawned;
      },
    )

    pub trace-Ends :
        (b : Boot H)
        → (b.started ≡ true → b.initialized ≡ true)
        → Ends (trace board) b (λ _ b'. Logged b b')
    unfolding trace
    trace-Ends b ready =
        Ends-if board.traces _ _ b (info-Ends b ready) (Ends-pure tt b (Logged-refl b))

    -- After `start_mono` the clock is running, and STARTED says so.
    pub start_mono-Ends :
        (b : Boot H)
        → board.mono_opens ≡ true
        → board.mono_starts ≡ true
        → Ends (start_mono board) b (λ _ b'. b' ≡ record b { initialized = true; started = true })
    unfolding start_mono
    start_mono-Ends b opens starts =
        (tt, record b { initialized = true; started = true }, rw (opens, starts), refl)

    pub start_embassy-Ends :
        (b : Boot H)
        → board.embassy_opens ≡ true
        → board.embassy_starts ≡ true
        → Ends (start_embassy board) b (λ _ b'. b' ≡ record b { embassy_started = true })
    unfolding start_embassy
    start_embassy-Ends b opens starts =
        (tt, record b { embassy_started = true }, rw (opens, starts), refl)
