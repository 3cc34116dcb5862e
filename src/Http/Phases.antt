-- ===== src/Http/Phases.antt =====
-- How the graceful shutdown of src/socket.rs runs in time: an invariant while it reads the rest of
-- what the client sends, and one while it flushes.
use mathlib.Core.Path.{subst}
use ra6m3_rtic.Prelude.{
  ℕ, ◌≤◌, ◌≡◌, refl, sym, Bool, true, false, Option, none, some, Result, ok, err, inl, inr, arith,
}
use ra6m3_rtic.Smoltcp.{Smoltcp}
use ra6m3_rtic.PollShare.{World, M, ◌>>=◌, >>=_lem}
use ra6m3_rtic.Future.{Poll, ready, pending, stateless}
use ra6m3_rtic.Future.Laws.{Progress, Answers}
use ra6m3_rtic.Socket.Types.{Error, SocketInner}
use ra6m3_rtic.Socket.Inner.{poll_flush}
use ra6m3_rtic.Socket.Tcp.{close}
use ra6m3_rtic.Socket.Io.{ServeError}
use ra6m3_rtic.Socket.Frame.{Holds, settled, on_socket_lem}
use ra6m3_rtic.Socket.Lifecycle.{Held}
use ra6m3_rtic.Http.Timer.{Time, TimeLaws, TimeoutError, timeout_error, run_with_timeout}
use ra6m3_rtic.Http.Clock.{Timed, Driven, drive}
use ra6m3_rtic.Http.Expiry.{deadline}
use ra6m3_rtic.Http.Within.{
  Always, Within, OrLate, drive-Within, run_with_timeout-Progress, run_with_timeout-Answers,
}
use ra6m3_rtic.Http.Graceful.{IsExpected}
use ra6m3_rtic.Http.Closing.{
  Timeouts, Closed, write_result, timed_flush, after_read, poll_or, after_or, timed_shutdown,
}
use ra6m3_rtic.Http.Flushing.{Flushes, flush-Progress, after_flush-Progress}

module _ {smol : Smoltcp} where
  -- There is an answer by the limit: `Ok` under `Q`, or one of the errors of the shutdown with the
  -- socket in its place.
  abbrev pub EndsBy :
      (World smol → Type 0) → SocketInner smol → ℕ → Option (Closed smol × World smol) → Type 0
  EndsBy Q io limit none = ⊥
  EndsBy Q io limit (some ((none, at), w)) = ⊥
  EndsBy Q io limit (some ((some (ok _), (t, rest)), w)) = Q w × (t ≤ limit)
  EndsBy Q io limit (some ((some (err e), (t, rest)), w)) =
      (IsExpected smol e × Held smol io w) × (t ≤ limit)

  -- The answers of what picoserve reads to the end, and of the `or`: the end of the data begins the
  -- second phase.
  abbrev pub Read :
      {X : Type 0}
      → (World smol → Type 0)
      → (World smol → Type 0)
      → Result (Unit {0}) Error
      → X
      → World smol
      → Type 0
  Read reading flushing (ok _) x w = flushing w
  Read reading flushing (err _) x w = reading w

  abbrev Over :
      (World smol → Type 0) → SocketInner smol → Result (Unit {0}) ServeError → World smol → Type 0
  Over flushing io (ok _) w = flushing w
  Over flushing io (err e) w = IsExpected smol e × Held smol io w

-- What the two phases keep, and what a finished flush comes to. A flush that goes on in the first
-- phase may end there, without an error.
pub record Phases {smol : Smoltcp} (io : SocketInner smol) (cx : smol.Waker)
    (reading flushing Q : World smol → Type 0) : Type 0 where
  pub reading_held : (w : World smol) → reading w → Held smol io w
  pub flushing_held : (w : World smol) → flushing w → Held smol io w
  pub flush_reading : (w : World smol) → reading w → Flushes io cx reading reading w
  pub flush_flushing : (w : World smol) → flushing w → Flushes io cx flushing Q w

module _ {smol : Smoltcp} {io : SocketInner smol} {cx : smol.Waker}
    {reading flushing Q : World smol → Type 0} (phases : Phases io cx reading flushing Q)
    (time : Time smol) (laws : TimeLaws time) (limits : Timeouts time) where
  write_result-EndsBy :
      (limit later : ℕ)
      → limit ≤ later
      → (r : Option
          (Driven smol (Result (Result (Unit {0}) Error) TimeoutError) (Unit {0}) × World smol))
      → Within flushing (Always flushing) (OrLate flushing (λ r _ w. (r ≡ ok tt) × Q w)) limit r
      → EndsBy Q io later (elim r [
        | none ↦ none
        | some (((a, _), at), w) ↦
            some ((elim a [ none ↦ none | some b ↦ some (write_result b) ], at), w)
      ])
  write_result-EndsBy limit later le none h = h
  write_result-EndsBy limit later le (some (((none, x), at), w)) h = h
  write_result-EndsBy limit later le (some (((some (ok (ok _)), x), (t, rest)), w)) (h, soon, k) =
      (h.1, omega arith)
  write_result-EndsBy limit later le (some (((some (ok (err e)), x), (t, rest)), w)) (h, soon, k) =
      cc
  write_result-EndsBy limit later le (some (((some (err timeout_error), x), (t, rest)), w))
        (h, soon, k) =
      ((inr (inl refl), phases.flushing_held w h), omega arith)

  timed_flush-EndsBy :
      (limit start : ℕ) (sched : Timed smol) (w : World smol)
      → deadline time limits.write start ≤ limit
      → Always flushing sched
      → flushing w
      → EndsBy Q io limit (timed_flush time limits io cx start sched w)
  unfolding timed_flush
  timed_flush-EndsBy limit start sched w le always h =
      let p : Unit {0} → M smol (Poll (Result (Unit {0}) Error) × Unit {0}) =
        stateless (poll_flush smol io cx) in
      write_result-EndsBy (deadline time limits.write start) limit le _ (
        drive-Within flushing (Always flushing) _ (run_with_timeout time limits.write p start)
          (deadline time limits.write start)
          (λ now x v k.
            run_with_timeout-Progress flushing _ time laws p limits.write start x v
              (flush-Progress io cx v x (phases.flush_flushing v k)) now)
          (λ x v k.
            run_with_timeout-Answers flushing _ time laws p limits.write start x v
              (flush-Progress io cx v x (phases.flush_flushing v k)))
          (λ t env rest k. k) start tt sched w always (omega arith) h)

  module _ {X : Type 0} where
    after_read-Progress :
        (flushed : Bool)
        (r : Option ((Poll (Result (Result (Unit {0}) Error) TimeoutError) × X) × World smol))
        → Progress (λ _ w. reading w) (OrLate reading (Read reading flushing)) r
        → Progress
            (λ (_ : X × Bool) w. reading w)
            (λ r _ w. Over flushing io r w)
            (after_read time limits io cx flushed r)
    after_read-Progress flushed none h = h
    after_read-Progress flushed (some ((ready (err timeout_error), x), w)) h =
        (inl refl, phases.reading_held w h)
    after_read-Progress flushed (some ((ready (ok (err e)), x), w)) h =
        (inr (inr (e, refl)), phases.reading_held w h)
    after_read-Progress flushed (some ((ready (ok (ok _)), x), w)) h = h
    after_read-Progress true (some ((pending, x), w)) h = h
    after_read-Progress false (some ((pending, x), w)) h =
        after_flush-Progress io cx w (λ r _ w. Over flushing io r w) x (phases.flush_reading w h)

    after_read-Answers :
        (flushed : Bool)
        (r : Option ((Poll (Result (Result (Unit {0}) Error) TimeoutError) × X) × World smol))
        → Answers r
        → Answers (after_read time limits io cx flushed r)
    after_read-Answers flushed none h = h
    after_read-Answers flushed (some ((ready (err timeout_error), x), w)) h = tt
    after_read-Answers flushed (some ((ready (ok (err e)), x), w)) h = tt
    after_read-Answers flushed (some ((ready (ok (ok _)), x), w)) h = tt
    after_read-Answers flushed (some ((pending, x), w)) h = absurd h

    after_or-EndsBy :
        (limit end : ℕ)
        → ((t : ℕ) → t ≤ end → deadline time limits.write t ≤ limit)
        → (r : Option (Driven smol (Result (Unit {0}) ServeError) (X × Bool) × World smol))
        → Within reading
            (λ l. Always reading l × Always flushing l)
            (λ r _ w. Over flushing io r w)
            end
            r
        → EndsBy Q io limit (elim r [
          | none ↦ none
          | some (((a, _), (t, rest)), w) ↦ after_or time limits io cx a t rest w
        ])
    after_or-EndsBy limit end le none h = h
    after_or-EndsBy limit end le (some (((none, x), at), w)) h = absurd h
    after_or-EndsBy limit end le (some (((some (ok _), x), (t, rest)), w)) (h, soon, (_, always)) =
        timed_flush-EndsBy limit t rest w (le t soon) always h
    after_or-EndsBy limit end le (some (((some (err e), x), (t, rest)), w)) (h, soon, k) =
        (h, omega (arith, soon, le t soon))

    module _ (discard : X → M smol (Poll (Result (Unit {0}) Error) × X))
        (discards : (x : X) (w : World smol)
          → reading w
          → Progress (λ _ w. reading w) (Read reading flushing) (discard x w))
        (start : ℕ) where
      poll_or-Progress :
          (now : ℕ) (x : X × Bool) (w : World smol)
          → reading w
          → Progress
              (λ _ w. reading w)
              (λ r _ w. Over flushing io r w)
              (poll_or time limits io cx discard start now x w)
      unfolding poll_or
      poll_or-Progress now (x, flushed) w h = after_read-Progress flushed _ (
          run_with_timeout-Progress reading _ time laws discard limits.read_request start x w
            (discards x w h) now)

      poll_or-Answers :
          (x : X × Bool) (w : World smol)
          → reading w
          → Answers (
              poll_or time limits io cx discard start (deadline time limits.read_request start) x w)
      unfolding poll_or
      poll_or-Answers (x, flushed) w h = after_read-Answers flushed _ (
          run_with_timeout-Answers reading _ time laws discard limits.read_request start x w
            (discards x w h))

      -- Both phases, from the socket that `close` leaves.
      pub phases-EndsBy :
          (limit : ℕ) (x : X) (sched : Timed smol) (w : World smol) {s : smol.Socket}
          → ((t : ℕ)
              → t ≤ deadline time limits.read_request start
              → deadline time limits.write t ≤ limit)
          → Always reading sched
          → Always flushing sched
          → Holds smol io s w
          → reading (settled smol io (smol.close s) w.net.iface w)
          → EndsBy Q io limit
              (timed_shutdown time limits (record { io = io }) cx discard x start sched w)
      unfolding timed_shutdown
      phases-EndsBy limit x sched w {s} by reads flushes h closed =
          let end = deadline time limits.read_request start in
          subst (EndsBy Q io limit)
            (sym (
              >>=_lem (close smol (record { io = io }))
                (λ _.
                  drive (poll_or time limits io cx discard start) end start (x, false) sched
                  >>= λ r. after_or time limits io cx r.0.0 r.1.0 r.1.1)
                w (on_socket_lem smol io (λ s. (tt, smol.close s)) w h)))
            (after_or-EndsBy limit end by _ (
              drive-Within reading (λ l. Always reading l × Always flushing l)
                (λ r _ w. Over flushing io r w) (poll_or time limits io cx discard start) end
                poll_or-Progress poll_or-Answers (λ t env rest (k, l). (k.0, (k.1, l.1))) start
                (x, false) sched (settled smol io (smol.close s) w.net.iface w) (reads, flushes)
                (omega arith) closed))
