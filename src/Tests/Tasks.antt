-- ===== src/Tests/Tasks.antt =====
-- The theorems on src/network.rs, src/mqtt.rs, src/io_ports.rs and src/main.rs at small inputs.
use ra6m3_rtic.Prelude.{
  ℕ, zero, suc, ◌+◌, ◌*◌, ◌/◌, ◌≤◌, ◌<◌, ◌≡◌, ◌≢◌, ◌↔◌, ◌⊎◌, refl, Bool, true, false, none, some,
  List, [], ◌∷◌, ◌++◌, map, arith,
}
use ra6m3_rtic.Prelude.Lists.{length, get_elem?, take}
use ra6m3_rtic.Network.Flag.{
  Poller, suspended, polls_network, Reach, here, next, stores, wakes, dispatches, polls, finishes,
  spawned, store_request, dispatch, wake, poll_or, finish_poll,
}
use ra6m3_rtic.Network.NoLostRequest.{no_lost_request, stored_request_served}
use ra6m3_rtic.Prelude.Signed.{pos, ◌≤ℤ◌}
use ra6m3_rtic.Network.Poll.{Fugit, Stack, smol_now, wait_is_over, poller_body}
use ra6m3_rtic.Network.Deadline.{deadline_exact}
use ra6m3_rtic.Mqtt.Backoff.{Attempts, Readings, initial, begin_attempt, after_attempts, ports}
use ra6m3_rtic.Mqtt.Spacing.{attempts_spacing, ports_distinct}
use ra6m3_rtic.Mqtt.Utf8.{is_utf8}
use ra6m3_rtic.Mqtt.Echo.{
  echoing_back, echo, published, payload_error, Round, message, receiving, recv_loop,
}
use ra6m3_rtic.Mqtt.Replies.{IsCut, echo_long, recv_loop_replies}
use ra6m3_rtic.Main.Interrupts.{gpt9_capture_compare_b, event_link, bound_task}
use ra6m3_rtic.Main.Links.{meaning, configured_irq, event-reaches}
use ra6m3_rtic.Tests.Text.{bytes_512}

-- A request comes in while the poller waits, and the poller goes through `poll_network` to rest.
abbrev resting : Poller
resting = record { request = false; woken = false; storing = 0; phase = suspended; owed = 0 }

request_served : Reach spawned resting
unfolding spawned store_request dispatch wake poll_or finish_poll
request_served =
    next
      (next
        (next
          (next
            (next (next (next (next here (dispatches refl refl)) stores) (wakes 0 refl))
              (polls false refl))
            (finishes refl))
          (polls false refl))
        (dispatches refl refl))
      (polls false refl)

-- The same up to the wake, before the poller runs again.
abbrev asked : Poller
asked = record { request = true; woken = true; storing = 0; phase = suspended; owed = 1 }

request_asked : Reach spawned asked
unfolding spawned store_request wake
request_asked = next (next here stores) (wakes 0 refl)

stored_request_served_example :
    (asked.woken ≡ true)
    × ((poll_or true (dispatch asked)).phase ≡ polls_network)
    × ((poll_or true (dispatch asked)).request ≡ false)
    × ((poll_or true (dispatch asked)).owed ≡ 0)
stored_request_served_example = stored_request_served request_asked refl refl refl true

no_lost_request_example : (resting.request ≡ false) × (resting.owed ≡ 0)
no_lost_request_example = no_lost_request request_served refl refl refl

-- 30 ticks to the microsecond.
abbrev megahertz_30 : Fugit
megahertz_30 = record {
  to_micros = λ d. d / 30;
  micros_at_least = λ m. m * 30;
  to_micros_lem = λ d fits. omega arith;
  at_least_enough = λ m fits. omega arith;
  at_least_smallest = λ m fits. omega arith;
}

-- A link that is up or down, and sockets that want to be polled at a time.
abbrev small_stack : Stack
small_stack = record {
  Device = Bool;
  Sockets = ℕ;
  is_up = λ up. up;
  poll = λ now up at. (up, at + 5);
  poll_at = λ now at. some (pos at);
}

deadline_example :
    (wait_is_over (poller_body small_stack megahertz_30 true none 60 90 (true, 7)).0 361 ≡ true)
    ↔ (pos 12 ≤ℤ smol_now megahertz_30 361)
deadline_example =
    deadline_exact small_stack megahertz_30 true none 60 90 12 361 (true, 7) refl refl (omega arith)
      (omega arith)

-- Two attempts at once after the first one: both wait for the deadline.
abbrev thousandths : ℕ → ℕ
thousandths n = n

abbrev second_attempt : Attempts
second_attempt = record { port_shift = 1; last_attempt = some 100 }

abbrev waits_twice : List Readings
waits_twice =
    record { tested = 150; resumed = 2100; stamped = 2101 }
    ∷ record { tested = 2105; resumed = 4101; stamped = 4102 }
    ∷ []

spacing_example :
    (stamp : ℕ) × ((after_attempts second_attempt waits_twice).last_attempt ≡ some stamp)
    × (100 + 2 * 2000 ≤ stamp)
unfolding begin_attempt
spacing_example =
    attempts_spacing thousandths second_attempt waits_twice 100
      (
        record {
          forward = omega arith;
          resumed_before = λ b. omega arith;
          resumed_after = λ last e b. ground arith;
        },
        (
          record {
            forward = omega arith;
            resumed_before = λ b. omega arith;
            resumed_after = λ last e b. ground arith;
          },
          tt,
        ),
      )
      refl

second_port : get_elem? (ports initial waits_twice) 1 ≡ some 58027
unfolding ports initial
second_port = refl

first_port : get_elem? (ports initial waits_twice) 0 ≡ some 58026
unfolding ports initial
first_port = refl

ports_distinct_example : (◌≢◌ {A = ℕ} 58026 58027) × (58026 ≤ 58026) × (58026 ≤ 58281)
ports_distinct_example =
    ports_distinct waits_twice 0 1 58026 58027 (omega arith) (omega arith) first_port second_port

abbrev repeated : ℕ → List ℕ → List ℕ
repeated zero rest = rest
repeated (suc n) rest = b'a' ∷ repeated n rest

-- 497 letters, and a character of two bytes that stands across the end of the slice.
abbrev cut_text : List ℕ
cut_text = repeated 497 (0xC3 ∷ 0xA4 ∷ [])

cut_is_long : 498 < length cut_text
cut_is_long = omega arith

echo_long_example :
    (IsCut bytes_512 cut_text × (echo bytes_512 cut_text ≡ none))
    ⊎ ((¬ IsCut bytes_512 cut_text)
        × (echo bytes_512 cut_text ≡ some (echoing_back ++ take 498 cut_text)))
echo_long_example = echo_long bytes_512 cut_text cut_is_long

abbrev two_rounds : List (Round ℕ)
two_rounds = message (b'a' ∷ []) published ∷ message (b'b' ∷ []) payload_error ∷ []

recv_loop_example :
    recv_loop bytes_512 0 two_rounds
    ≡ receiving (map (λ payload. echoing_back ++ payload) ((b'a' ∷ []) ∷ []))
unfolding is_utf8
recv_loop_example =
    recv_loop_replies bytes_512 0 two_rounds (refl, omega arith, (refl, omega arith, tt))

event-reaches_example :
    (bound_task (event_link gpt9_capture_compare_b) ≡ meaning gpt9_capture_compare_b)
    × (configured_irq (2 ∷ []) (meaning gpt9_capture_compare_b) ≡ event_link gpt9_capture_compare_b)
event-reaches_example = event-reaches (2 ∷ []) gpt9_capture_compare_b
