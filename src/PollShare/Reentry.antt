-- ===== src/PollShare/Reentry.antt =====
-- src/poll_share.rs: the panic that the comment on `lock` names, and what a call that returns
-- leaves.
use ra6m3_rtic.Prelude.{◌≡◌, ◌∙◌, refl, inl, inr, true, none, some, arith, Option-cases}
use ra6m3_rtic.Smoltcp.{Smoltcp}
use ra6m3_rtic.PollShare.{World, M, ◌>>=◌, lock, >>=_lem}

-- Code that leaves the borrow flag as it finds it, or panics.
abbrev pub KeepsBorrow : {smol : Smoltcp} {A : Type 0} → M smol A → Type 0
KeepsBorrow {smol} {A} m =
    (w : World smol) (a : A) (w' : World smol) → m w ≡ some (a, w') → w'.borrowed ≡ w.borrowed

-- `lock` is such code itself.
pub lock-KeepsBorrow : {smol : Smoltcp} {A : Type 0} (body : M smol A) → KeepsBorrow (lock body)
unfolding lock
lock-KeepsBorrow body w a w' e = ground arith

lock_taken :
    {smol : Smoltcp} {A : Type 0} (body : M smol A) (w : World smol)
    → w.borrowed ≡ true
    → lock body w ≡ none
unfolding lock
lock_taken body w e = rw e

lock_of_panic :
    {smol : Smoltcp} {A : Type 0} (body : M smol A) (w : World smol)
    → body (record w { borrowed = true }) ≡ none
    → lock body w ≡ none
unfolding lock
lock_of_panic body w e = ground arith

module _ {smol : Smoltcp} {A B C : Type 0} (before : M smol A) (inner : M smol B)
    (after : B → M smol C) (keeps : KeepsBorrow before) where
  reentry_panics :
      (w : World smol) → w.borrowed ≡ true → (before >>= λ _. lock inner >>= after) w ≡ none
  reentry_panics w e = elim (Option-cases (before w)) [
    | inl stuck ↦ rw (stuck, ◌>>=◌)
    | inr ((a, w'), came) ↦
        >>=_lem before (λ _. lock inner >>= after) w came
        ∙ rw (lock_taken inner w' (keeps w a w' came ∙ e), ◌>>=◌)
  ]

  -- Entered again by the closure that it runs, however far that closure has come, `lock` panics:
  -- what comes before in the closure may do anything but change the borrow flag.
  pub lock_reentered : (w : World smol) → lock (before >>= λ _. lock inner >>= after) w ≡ none
  lock_reentered w = lock_of_panic (before >>= λ _. lock inner >>= after) w (reentry_panics _ refl)
