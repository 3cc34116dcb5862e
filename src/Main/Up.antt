-- ===== src/Main/Up.antt =====
-- The states of the start-up once both timers run, and the steps that keep them so.
use ra6m3_rtic.Prelude.{◌≡◌, ◌∙◌, ap, Bool, true, false, List, ◌∷◌, if◌then◌else◌}
use ra6m3_rtic.Main.Boot.{
  Board, Boot, Ran, panicked, Task, mono_now, info, trace, is_spawned, spawn,
}
use ra6m3_rtic.Main.Ends.{Answers, Ends, Logged, mono_now-Ends, info-Ends, trace-Ends}

-- Both clocks run, STARTED says so, and these tasks were spawned, the latest first.
pub record Up {H : Type 0} (ts : List (Task H)) (b : Boot H) : Type 0 where
  pub is_initialized : b.initialized ≡ true
  pub is_started : b.started ≡ true
  pub has_embassy : b.embassy_started ≡ true
  pub has_spawned : b.spawned ≡ ts

-- What the drivers must answer: each opens and starts, and the Ethernet driver leaves the priority
-- of its interrupt as it was.
pub record Works (board : Board) : Type 0 where
  pub ioport : board.ioport_opens ≡ true
  pub mono_open : board.mono_opens ≡ true
  pub mono_start : board.mono_starts ≡ true
  pub embassy_open : board.embassy_opens ≡ true
  pub embassy_start : board.embassy_starts ≡ true
  pub ether : board.ether_opens ≡ true
  pub callback : board.callback_is_set ≡ true
  pub priority : board.priority_before ≡ board.priority_after

module _ {H : Type 0} where
  pub Ends-weaken :
      {A : Type 0} {Q R : A → Boot H → Type 0} {o : Ran H A}
      → Answers o Q
      → ((a : A) (b' : Boot H) → Q a b' → R a b')
      → Answers o R
  Ends-weaken (a, b', e, q) k = (a, b', e, k a b' q)

  module _ (ts : List (Task H)) where
    pub Logged-Up : (b b' : Boot H) → Up ts b → Logged b b' → Up ts b'
    Logged-Up b b' u l = record {
      is_initialized = l.same_initialized ∙ u.is_initialized;
      is_started = l.same_started ∙ u.is_started;
      has_embassy = l.same_embassy ∙ u.has_embassy;
      has_spawned = l.same_spawned ∙ u.has_spawned;
    }

    module _ (board : Board) (b : Boot H) (u : Up ts b) where
      pub mono_now-Up : Ends (mono_now board) b (λ _ b'. Up ts b')
      mono_now-Up =
          Ends-weaken (mono_now-Ends board b u.is_initialized) λ _ b' l. Logged-Up b b' u l

      pub info-Up : Ends (info board) b (λ _ b'. Up ts b')
      info-Up = Ends-weaken (info-Ends board b λ _. u.is_initialized) λ _ b' l. Logged-Up b b' u l

      pub trace-Up : Ends (trace board) b (λ _ b'. Up ts b')
      trace-Up = Ends-weaken (trace-Ends board b λ _. u.is_initialized) λ _ b' l. Logged-Up b b' u l

    if_false : {A : Type 0} (t : Bool) (x y : A) → t ≡ false → (if t then x else y) ≡ y
    if_false t x y e = rw (e)

    pub spawn-Up :
        (t : Task H) (b : Boot H)
        → Up ts b
        → is_spawned t ts ≡ false
        → Ends (spawn t) b (λ _ b'. Up (t ∷ ts) b')
    unfolding spawn
    spawn-Up t b u e = (
      tt,
      record b { spawned = t ∷ b.spawned },
      if_false (is_spawned t b.spawned) (panicked b) _ (ap (is_spawned t) u.has_spawned ∙ e),
      record {
        is_initialized = u.is_initialized;
        is_started = u.is_started;
        has_embassy = u.has_embassy;
        has_spawned = ap (λ us. t ∷ us) u.has_spawned;
      },
    )
