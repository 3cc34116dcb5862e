-- ===== src/Network/Deadline.antt =====
-- The times at which the poller of src/network.rs runs.
use ra6m3_rtic.Prelude.{
  ℕ, ◌*◌, ◌^◌, ◌≤◌, ◌<◌, ◌≡◌, ◌↔◌, refl, Bool, true, false, Option, none, some, arith,
}
use ra6m3_rtic.Prelude.Signed.{pos, ◌≤ℤ◌}
use ra6m3_rtic.Network.Poll.{
  Fugit, Stack, smol_now, to_deadline, poll_network, wait_is_over, ne_instant, after_wait,
  poller_body,
}

module _ (stack : Stack) (fugit : Fugit) where
  -- The smallest number of ticks that lasts `m` microseconds is reached when the clock shows `m`.
  at_least_reached :
      (m ticks : ℕ)
      → m * 30 < 2 ^ 64
      → ticks < 2 ^ 64
      → (fugit.micros_at_least m ≤ ticks) ↔ (m ≤ fugit.to_micros ticks)
  at_least_reached m ticks small fits =
      let enough = fugit.at_least_enough m small in
      let smallest = fugit.at_least_smallest m small in
      let clock = fugit.to_micros_lem ticks fits in (λ h. omega arith, λ h. omega arith)

  -- The clock of a `u64` of ticks is not negative.
  smol_now_lem : (ticks : ℕ) → ticks < 2 ^ 64 → smol_now fugit ticks ≡ pos (fugit.to_micros ticks)
  unfolding smol_now
  smol_now_lem ticks fits = ground (arith, fugit.to_micros_lem ticks fits)

  -- With the link up the timer is over exactly from the tick on at which smoltcp's clock has
  -- reached the time that `poll_at` named, as signed numbers: it is never early, and never late. The
  -- time named is not negative, and its ticks fit a `u64`, which is so for 19,000 years from the
  -- start; the tick looked at is a `u64`.
  pub deadline_exact :
      (requested : Bool) (old : Option ℕ) (first second at ticks : ℕ)
      (ctx : stack.Device × stack.Sockets)
      → stack.is_up ctx.0 ≡ true
      → stack.poll_at (smol_now fugit second) (stack.poll (smol_now fugit first) ctx.0 ctx.1).1
        ≡ some (pos at)
      → at * 30 < 2 ^ 64
      → ticks < 2 ^ 64
      → (wait_is_over (poller_body stack fugit requested old first second ctx).0 ticks ≡ true)
        ↔ (pos at ≤ℤ smol_now fugit ticks)
  unfolding poller_body poll_network wait_is_over to_deadline
  deadline_exact requested old first second at ticks ctx up named small fits =
      let reached = at_least_reached at ticks small fits in
      rw (up, named, smol_now_lem ticks fits)
        (λ h. reached.0 (ground arith), λ h. ground (arith, reached.1 h))

  ne_instant_self : (d : Option ℕ) → ne_instant d d ≡ false
  ne_instant_self none = refl
  ne_instant_self (some a) = ground arith

  -- "New Delay" is never logged, whatever the deadlines before and after the round are.
  pub new_delay_unlogged :
      (requested : Bool) (old : Option ℕ) (first second : ℕ) (ctx : stack.Device × stack.Sockets)
      → (poller_body stack fugit requested old first second ctx).1 ≡ false
  unfolding poller_body
  new_delay_unlogged requested old first second ctx =
      ground (arith, ne_instant_self (after_wait requested old))
