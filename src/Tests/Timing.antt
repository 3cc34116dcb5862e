-- ===== src/Tests/Timing.antt =====
-- The timers of the HTTP task, at 30 MHz, on the small stack.
use ra6m3_rtic.Prelude.{none, ℕ, ◌+◌, ◌*◌, ◌≡◌, refl, true, false, some, [], ◌∷◌, Result, ltb}
use ra6m3_rtic.PollShare.{M}
use ra6m3_rtic.Future.{Poll, ready, pending, await}
use ra6m3_rtic.Socket.Types.{Error}
use ra6m3_rtic.Http.Timer.{Time, TimeLaws, embassy_timeout, limited, run_with_timeout}
use ra6m3_rtic.Http.Clock.{Timed, drive, cut}
use ra6m3_rtic.Http.Expiry.{forget, expired, drive-run_with_timeout}
use ra6m3_rtic.Http.Graceful.{Flushed}
use ra6m3_rtic.Http.Closing.{timeouts, timed_abort, timed_shutdown}
use ra6m3_rtic.Http.Deadline.{timed_shutdown-Flushed}
use ra6m3_rtic.Http.Phases.{EndsBy}
use ra6m3_rtic.Http.Aborted.{AbortsBy, timed_abort-AbortsBy}
use ra6m3_rtic.Tests.Toy.{Toy, on_all-Holds, toy, world, on_all, first, socket, world-Holds}
use ra6m3_rtic.Tests.Changes.{running, dies, chats, stays-Held}
use ra6m3_rtic.Tests.Laws.{toy_sets, toy_wakers, toy_states}

abbrev pub ticks : Time toy
ticks = record {
  Duration = ℕ;
  from_millis = λ n. n;
  as_millis = λ n. n;
  embassy_from_millis = λ n. n * 30_000;
  after_millis =
      λ n start now. elim (ltb now (start + n * 30_000)) [ true ↦ pending | false ↦ ready tt ];
  with_timeout = λ p n start now x w. limited embassy_timeout (ltb now (start + n)) (p x w);
}

pub ticks_laws : TimeLaws ticks
ticks_laws = record {
  millis = λ n. refl;
  after = λ n start now. refl;
  timeout = λ p n start now x w. refl;
}

-- The client sends for ever.
abbrev talks : Unit {0} → M toy (Poll (Result (Unit {0}) Error) × Unit {0})
talks x w = some ((pending, tt), w)

-- Data that comes in half a second after the start and after a second and a half.
abbrev late : Timed toy
late = (15_000_000, on_all chats) ∷ (45_000_000, on_all dies) ∷ []

timed_shutdown_example :
    EndsBy
      (Flushed toy first)
      first
      180_000_000
      (timed_shutdown ticks (timeouts ticks) socket 9 talks tt 0 late (world running))
timed_shutdown_example =
    timed_shutdown-Flushed toy_sets ticks ticks_laws socket 9 talks tt 0 late (world running)
      (λ x w h. h) (stays-Held chats tt, (stays-Held dies tt, tt)) (running, world-Holds running)

-- The RST is sent, a second after the abort.
abbrev resets : Toy → Toy
resets s = record s { peer = none }

timed_abort_example : AbortsBy first 150_000_000 (
    timed_abort ticks
      (timeouts ticks)
      socket
      9
      0
      ((30_000_000, on_all resets) ∷ [])
      (world running))
timed_abort_example =
    timed_abort-AbortsBy toy_sets toy_wakers toy_states ticks ticks_laws socket 9 0
      ((30_000_000, on_all resets) ∷ []) (world running) running
      (λ w (s, h, c). (resets s, on_all-Holds resets first s w h, c), tt) (world-Holds running)

run_with_timeout_example :
    forget (drive (run_with_timeout ticks 1000 talks 0) 30_000_000 0 tt late (world running))
    ≡ expired (await talks tt (on_all chats ∷ (λ w. w) ∷ []) (world running))
unfolding cut
run_with_timeout_example =
    drive-run_with_timeout ticks ticks_laws talks 1000 0 tt late (world running)
