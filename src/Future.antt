-- ===== src/Future.antt =====
-- What the code uses of `core::future::poll_fn` and `.await`: a poll function is called, and
-- while it answers `pending` the other tasks and the network change the store before the next
-- call. A schedule lists these changes, and `x` is what the closure has captured and mutates.
pub mod Laws
use ra6m3_rtic.Prelude.{Option, none, some, List, [], ◌∷◌}
use ra6m3_rtic.Smoltcp.{Smoltcp}
use ra6m3_rtic.PollShare.{World, M, pure, ◌>>=◌}

pub data Poll (A : Type 0) : Type 0 where
  ready : A → Poll A
  pending : Poll A

abbrev pub Schedule : Smoltcp → Type 0
Schedule smol = List (World smol → World smol)

-- A poll function whose closure mutates nothing that it captured.
abbrev pub stateless : {smol : Smoltcp} {A X : Type 0} → M smol (Poll A) → X → M smol (Poll A × X)
stateless p x = do r ← p; pure (r, x)

module _ {smol : Smoltcp} {A X : Type 0} where
  -- What an executor does with the answer to a poll: it returns, or it polls again.
  abbrev pub proceed :
      (X → M smol (Option A × X))
      → Option ((Poll A × X) × World smol)
      → Option ((Option A × X) × World smol)
  proceed again none = none
  proceed again (some ((ready a, x), w)) = some ((some a, x), w)
  proceed again (some ((pending, x), w)) = again x w

  -- The result is `none` if the future is still pending when the schedule ends.
  unfoldable pub await : (X → M smol (Poll A × X)) → X → Schedule smol → M smol (Option A × X)
  await p x [] w = proceed (λ x' w'. some ((none, x'), w')) (p x w)
  await p x (env ∷ rest) w = proceed (λ x' w'. await p x' rest (env w')) (p x w)
