-- ===== src/Tests/Subscription.antt =====
-- The subscription of src/mqtt.rs, with a connection that counts the packets up to the
-- acknowledgement.
use ra6m3_rtic.Prelude.{ℕ, zero, suc, ◌<◌, ◌≡◌, refl, some, Result, ok, arith}
use ra6m3_rtic.PollShare.{World}
use ra6m3_rtic.Mqtt.Subscribe.{subscribe}
use ra6m3_rtic.Mqtt.Acknowledged.{Acknowledges, Ended, subscribe-Ended}
use ra6m3_rtic.Tests.Toy.{toy, world, on_all, first, world-Holds}
use ra6m3_rtic.Tests.Changes.{running, chats, stays-Held}
use ra6m3_rtic.Tests.Broker.{answer, after, counting}

after-closer : (n : ℕ) → answer n ≡ ok tt → after n < n
after-closer zero e = absurd (ground arith)
after-closer (suc n) e = omega arith

abbrev counted : Acknowledges toy counting first 2
counted = record {
  left = λ sub conn. conn;
  subscribes = λ conn w h. (ok tt, 2, w, refl, h, λ sub e. omega arith);
  polls = λ sub conn w h e.
      (answer conn, after conn, on_all chats w, refl, stays-Held chats tt w h, after-closer conn);
}

subscribe-Ended_example :
    (r : Result (Unit {0}) ℕ) × (conn : ℕ) × (w : World toy) × (counting.subscribe 9 (world running)
      ≡ some ((r, conn), w))
    × Ended toy counting first r (subscribe toy counting 3 9 (world running))
subscribe-Ended_example =
    subscribe-Ended toy counting first 2 counted 9 (world running) (running, world-Holds running)
