-- ===== src/Http/Timer.antt =====
-- src/http/timer.rs: `Timer`, the clock that the HTTP task gives to picoserve. The durations of
-- picoserve and the timers of embassy-time are parameters.
use ra6m3_rtic.Prelude.{ℕ, ◌+◌, ◌≡◌, Bool, true, false, Option, none, some, Result, ok, err, ltb}
use ra6m3_rtic.Smoltcp.{Smoltcp}
use ra6m3_rtic.PollShare.{World, M, pure, ◌>>=◌}
use ra6m3_rtic.Future.{Poll, ready, pending}

pub data EmbassyError : Type 0 where
  embassy_timeout : EmbassyError

-- `picoserve::time::TimeoutError`
pub data TimeoutError : Type 0 where
  timeout_error : TimeoutError

-- The time that the code uses of picoserve (`Duration`) and of embassy-time. The timers of
-- embassy-time are polls at an instant in ticks, behind the instant of their creation;
-- `embassy_from_millis` is in ticks.
pub record Time (smol : Smoltcp) : Type 1 where
  pub Duration : Type 0
  pub from_millis : ℕ → Duration
  pub as_millis : Duration → ℕ
  pub embassy_from_millis : ℕ → ℕ
  pub after_millis : ℕ → ℕ → ℕ → Poll (Unit {0})
  pub with_timeout :
      {A X : Type 0}
      → (X → M smol (Poll A × X))
      → ℕ
      → ℕ
      → ℕ
      → X
      → M smol (Poll (Result A EmbassyError) × X)

-- One poll of a future under a timeout: the answer of the future goes first, and where it has none
-- the flag tells if there is time left.
abbrev pub limited :
    {smol : Smoltcp} {A X E : Type 0}
    → E
    → Bool
    → Option ((Poll A × X) × World smol)
    → Option ((Poll (Result A E) × X) × World smol)
limited e _ none = none
limited e _ (some ((ready a, x), w)) = some ((ready (ok a), x), w)
limited e true (some ((pending, x), w)) = some ((pending, x), w)
limited e false (some ((pending, x), w)) = some ((ready (err e), x), w)

-- What the documentations say: a duration is the milliseconds it was made from; a timer expires when
-- its time is over; and a future under a timeout is polled, and is given up then.
pub record TimeLaws {smol : Smoltcp} (time : Time smol) : Type 1 where
  pub millis : (n : ℕ) → time.as_millis (time.from_millis n) ≡ n
  pub after :
      (n start now : ℕ)
      → time.after_millis n start now
        ≡ elim (ltb now (start + time.embassy_from_millis n)) [ true ↦ pending | false ↦ ready tt ]
  pub timeout :
      {A X : Type 0} (p : X → M smol (Poll A × X)) (ticks start now : ℕ) (x : X) (w : World smol)
      → time.with_timeout p ticks start now x w
        ≡ limited embassy_timeout (ltb now (start + ticks)) (p x w)

module _ {smol : Smoltcp} (time : Time smol) where
  -- `Timer::delay`, created at `start` and polled at `now`.
  unfoldable pub delay : time.Duration → ℕ → ℕ → Poll (Unit {0})
  delay duration start now = time.after_millis (time.as_millis duration) start now

  -- The `map_err`, on one poll.
  abbrev pub map_err : {A : Type 0} → Poll (Result A EmbassyError) → Poll (Result A TimeoutError)
  map_err pending = pending
  map_err (ready (ok a)) = ready (ok a)
  map_err (ready (err embassy_timeout)) = ready (err timeout_error)

  -- `Timer::run_with_timeout`, created at `start` and polled at `now`.
  unfoldable pub run_with_timeout :
      {A X : Type 0}
      → time.Duration
      → (X → M smol (Poll A × X))
      → ℕ
      → ℕ
      → X
      → M smol (Poll (Result A TimeoutError) × X)
  run_with_timeout duration p start now x = do
    (r, x') ← time.with_timeout p (time.embassy_from_millis (time.as_millis duration)) start now x
    pure (map_err r, x')
