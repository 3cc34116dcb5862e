-- ===== src/Network/Poll.antt =====
-- src/network.rs: `smol_now`, `poll_network`, `wait_until`, and the body of the loop of
-- `network_poller_task`. Times of the monotonic are ticks; smoltcp's are microseconds.
use ra6m3_rtic.Prelude.{
  ℕ, ◌+◌, ◌*◌, ◌/◌, ◌^◌, ◌≤◌, ◌<◌, ◌≡◌, Bool, true, false, not, ◌&&◌, Option, none, some, leb, ◌==◌,
  if◌then◌else◌, is_some,
}
use ra6m3_rtic.Prelude.Signed.{ℤ, as_i64, as_u64}

-- What the code uses of `fugit`'s `Duration<u64, 1, CLOCK_HZ>`, with CLOCK_HZ = 30_000_000, as it is
-- documented: `to_micros` gives the whole microseconds of so many ticks, and `micros_at_least` the
-- smallest number of ticks that lasts so many microseconds, where that number fits a `u64`; nothing
-- is said of what it is otherwise.
pub record Fugit : Type 0 where
  pub to_micros : ℕ → ℕ
  pub micros_at_least : ℕ → ℕ
  pub to_micros_lem : (d : ℕ) → d < 2 ^ 64 → to_micros d ≡ d * 1_000_000 / 30_000_000
  pub at_least_enough : (m : ℕ) → m * 30 < 2 ^ 64 → m * 30_000_000 ≤ micros_at_least m * 1_000_000
  pub at_least_smallest :
      (m : ℕ) → m * 30 < 2 ^ 64 → micros_at_least m * 1_000_000 < m * 30_000_000 + 1_000_000

-- What the function uses of the device and of smoltcp's interface. `Sockets` stands for the pair
-- of the interface and the sockets; an `Instant` of smoltcp is its microseconds, an `i64`.
pub record Stack : Type 1 where
  pub Device : Type 0
  pub Sockets : Type 0
  pub is_up : Device → Bool
  pub poll : ℤ → Device → Sockets → Device × Sockets
  pub poll_at : ℤ → Sockets → Option ℤ

-- `smol_now`: the monotonic, read at `ticks`, in microseconds.
unfoldable pub smol_now : Fugit → ℕ → ℤ
smol_now fugit ticks = as_i64 (fugit.to_micros ticks)

-- `at.total_micros() & (Ticks::MAX as i64)`, then the conversion to ticks. `u64::MAX as i64` is
-- -1, all ones, so that the mask changes nothing; `micros as _` is `as u64`, and a negative instant
-- becomes a large number.
unfoldable pub to_deadline : Fugit → ℤ → ℕ
to_deadline fugit total_micros = fugit.micros_at_least (as_u64 total_micros)

-- `poll_network`, with the readings of the monotonic at its two calls of `smol_now`.
unfoldable pub poll_network :
    (stack : Stack)
    → Fugit
    → ℕ
    → ℕ
    → stack.Device × stack.Sockets
    → Option ℕ × (stack.Device × stack.Sockets)
unfolding smol_now to_deadline
poll_network stack fugit first second (dev, net) =
    if not (stack.is_up dev)
    then (none, (dev, net))
    else let (dev', net') = stack.poll (smol_now fugit first) dev net in
      (
        elim (stack.poll_at (smol_now fugit second) net') [
          | none ↦ none
          | some at ↦ some (to_deadline fugit at)
        ],
        (dev', net'),
      )

-- `wait_until`: is it over at `ticks`? With no deadline it never is.
unfoldable pub wait_is_over : Option ℕ → ℕ → Bool
wait_is_over none ticks = false
wait_is_over (some deadline) ticks = leb deadline ticks

-- `next_poll_at` after the `or`: the timer's side, if it won, has taken the deadline.
unfoldable pub after_wait : Bool → Option ℕ → Option ℕ
after_wait requested next_poll_at = if requested then next_poll_at else none

-- `prev_delay != prev_delay`, on `Option<Instant>`.
abbrev pub ne_instant : Option ℕ → Option ℕ → Bool
ne_instant none none = false
ne_instant none (some _) = true
ne_instant (some _) none = true
ne_instant (some a) (some b) = not (a == b)

-- The rest of the loop's body: the new `next_poll_at`, whether "New Delay" is logged, the state.
unfoldable pub poller_body :
    (stack : Stack)
    → Fugit
    → Bool
    → Option ℕ
    → ℕ
    → ℕ
    → stack.Device × stack.Sockets
    → Option ℕ × Bool × (stack.Device × stack.Sockets)
unfolding after_wait poll_network
poller_body stack fugit requested next_poll_at first second ctx =
    let prev_delay = after_wait requested next_poll_at in
    let (next_poll_at', ctx') = poll_network stack fugit first second ctx in
    (next_poll_at', is_some next_poll_at' && ne_instant prev_delay prev_delay, ctx')
