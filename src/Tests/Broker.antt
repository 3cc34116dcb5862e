-- ===== src/Tests/Broker.antt =====
-- A connection of minimq that counts the packets up to the acknowledgement.
use ra6m3_rtic.Prelude.{ℕ, zero, suc, Bool, true, false, some, Result, ok, err}
use ra6m3_rtic.Mqtt.Subscribe.{Minimq}
use ra6m3_rtic.Tests.Toy.{toy, on_all}
use ra6m3_rtic.Tests.Changes.{chats}

abbrev pub is_left : ℕ → Bool
is_left zero = false
is_left (suc n) = true

abbrev pub answer : ℕ → Result (Unit {0}) ℕ
answer zero = err 7
answer (suc n) = ok tt

abbrev pub after : ℕ → ℕ
after zero = zero
after (suc n) = n

abbrev pub counting : Minimq toy ℕ
counting = record {
  Connection = ℕ;
  Operation = Unit {0};
  subscribe = λ conn w. some ((ok tt, 2), w);
  is_pending = λ sub conn. is_left conn;
  poll = λ conn w. some ((answer conn, after conn), on_all chats w);
}
