-- ===== src/Tests/Again.antt =====
-- A graceful shutdown of which the client takes its part.
use mathlib.Core.Path.{subst}
use ra6m3_rtic.Prelude.{
  refl, ◌≡◌, sym, Bool, true, false, Option, none, some, [], ◌∷◌, Result, ok, arith,
}
use ra6m3_rtic.Smoltcp.{State}
use ra6m3_rtic.PollShare.{World, M}
use ra6m3_rtic.Future.{Poll, ready, pending}
use ra6m3_rtic.Future.Laws.{Progress}
use ra6m3_rtic.Socket.Types.{Error}
use ra6m3_rtic.Http.Rounds.{Listenable}
use ra6m3_rtic.Http.Clock.{Timed}
use ra6m3_rtic.Http.Phases.{EndsBy, Read}
use ra6m3_rtic.Http.Closing.{timeouts, timed_shutdown}
use ra6m3_rtic.Http.Again.{is_closing, is_over, In, ReuseLaws, timed_shutdown-Listenable}
use ra6m3_rtic.Http.Task.{Connection}
use ra6m3_rtic.Http.Next.{NextRuns, shutdown-NextRuns}
use ra6m3_rtic.Tests.Toy.{
  Toy, toy, world, on_all, on_all-Holds, first, socket, world-Holds, closing_state,
}
use ra6m3_rtic.Tests.Changes.{running}
use ra6m3_rtic.Tests.Laws.{toy_sets, toy_wakers}
use ra6m3_rtic.Tests.Timing.{ticks, ticks_laws}

-- The client acknowledges the FIN, and then sends its own.
abbrev moves : State → State
moves State.fin_wait1 = State.fin_wait2
moves State.fin_wait2 = State.time_wait
moves State.closing = State.time_wait
moves State.last_ack = State.closed
moves st = st

abbrev moved : Toy → Toy
moved s = record s { st = moves s.st }

moves-closing : (st : State) → is_closing st ≡ true → is_closing (moves st) ≡ true
moves-closing st h = ground arith

moves-over : (st : State) → is_over st ≡ true → is_over (moves st) ≡ true
moves-over st h = ground arith

closing_closing : (st : State) → is_closing (closing_state st) ≡ true
closing_closing st = ground arith

reuse : ReuseLaws toy 80
reuse = record {
  close_state = λ s. closing_closing s.st;
  not_open = λ s h. ground (arith, h);
  listens = λ s h. ground (arith, h);
}

abbrev at_end : Poll (Result (Unit {0}) Error)
at_end = ready (ok tt)

-- picoserve has read to the end once the client has closed its half.
abbrev drains : Unit {0} → M toy (Poll (Result (Unit {0}) Error) × Unit {0})
drains x w = elim (w.net.sockets 0) [
  | none ↦ none
  | some s ↦ elim (is_over s.st) [ true ↦ some ((at_end, tt), w) | false ↦ some ((pending, tt), w) ]
]

drains_over :
    (b : Bool) (w : World toy)
    → In toy 80 is_closing first w
    → (b ≡ true → In toy 80 is_over first w)
    → Progress
        (λ (_ : Unit {0}) w. In toy 80 is_closing first w)
        (Read (In toy 80 is_closing first) (In toy 80 is_over first))
        (elim b [ true ↦ some ((at_end, tt), w) | false ↦ some ((pending, tt), w) ])
drains_over true w h k = k refl
drains_over false w h k = h

drains-Read :
    (x : Unit {0}) (w : World toy)
    → In toy 80 is_closing first w
    → Progress
        (λ _ w. In toy 80 is_closing first w)
        (Read (In toy 80 is_closing first) (In toy 80 is_over first))
        (drains x w)
drains-Read x w (s, h, c) =
    subst
      (λ (o : Option Toy).
        Progress (λ (_ : Unit {0}) w. In toy 80 is_closing first w)
          (Read (In toy 80 is_closing first) (In toy 80 is_over first))
          (elim o [
            | none ↦ none
            | some s ↦ elim (is_over s.st) [
              | true ↦ some ((at_end, tt), w)
              | false ↦ some ((pending, tt), w)
            ]
          ]))
      (sym h.found) (drains_over (is_over s.st) w (s, h, c) λ e. (s, h, e))

abbrev acknowledged : Timed toy
acknowledged = (3_000_000, on_all moved) ∷ (6_000_000, on_all moved) ∷ []

keeps_closing :
    (w : World toy) → In toy 80 is_closing first w → In toy 80 is_closing first (on_all moved w)
keeps_closing w (s, h, c) = (moved s, on_all-Holds moved first s w h, moves-closing s.st c)

keeps_over : (w : World toy) → In toy 80 is_over first w → In toy 80 is_over first (on_all moved w)
keeps_over w (s, h, c) = (moved s, on_all-Holds moved first s w h, moves-over s.st c)

again_example :
    EndsBy
      (Listenable toy 80 first)
      first
      180_000_000
      (timed_shutdown ticks (timeouts ticks) socket 9 drains tt 0 acknowledged (world running))
again_example =
    timed_shutdown-Listenable toy 80 toy_sets toy_wakers reuse ticks ticks_laws socket 9 drains tt 0
      acknowledged (world running) running drains-Read (keeps_closing, (keeps_closing, tt))
      (keeps_over, (keeps_over, tt)) (world-Holds running)

-- The next client connects, and its two requests are answered.
abbrev next_client : Connection toy
next_client = record { waiting = on_all moved ∷ []; serve = λ w. some (ok 2, w) }

shutdown-NextRuns_example :
    NextRuns toy 80 0 9 next_client
      (timed_shutdown ticks (timeouts ticks) socket 9 drains tt 0 acknowledged (world running))
shutdown-NextRuns_example =
    shutdown-NextRuns toy 80 toy_sets toy_wakers reuse ticks ticks_laws 0 9 drains tt 0 acknowledged
      (world running) running drains-Read (keeps_closing, (keeps_closing, tt))
      (keeps_over, (keeps_over, tt)) (world-Holds running) next_client
      (λ x w (s, h). (moved s, on_all-Holds moved first s w h), tt) (λ w h. (ok 2, w, refl))
