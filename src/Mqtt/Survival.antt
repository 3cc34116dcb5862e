-- ===== src/Mqtt/Survival.antt =====
-- The inner loop of src/mqtt.rs does not panic over short messages.
use mathlib.Core.Path.{subst}
use ra6m3_rtic.Prelude.{ℕ, ◌≤◌, sym, Bool, true, false, some, List, [], ◌∷◌, ◌++◌}
use ra6m3_rtic.Prelude.Lists.{length}
use ra6m3_rtic.Mqtt.Echo.{
  Heapless, echoing_back, Round, recv_failed, message, published, payload_error, session_error,
  Published, Outcome, panicked, receiving, failed, with_reply, after_publish, after_recv, recv_loop,
}
use ra6m3_rtic.Mqtt.Utf8.{is_utf8}
use ra6m3_rtic.Mqtt.Replies.{echo_whole}

-- No message is longer than what is left of the reply behind the greeting.
abbrev pub AllShort : {E : Type 0} → List (Round E) → Type 0
AllShort [] = Unit
AllShort (recv_failed e ∷ rest) = AllShort rest
AllShort (message payload outcome ∷ rest) = (length payload ≤ 498) × AllShort rest

-- The inner loop came to an end without a panic.
abbrev pub Survives : {E : Type 0} → Outcome E → Type 0
Survives panicked = ⊥
Survives (receiving replies) = Unit
Survives (failed e replies) = Unit

with_reply-Survives :
    {E : Type 0} (reply : List ℕ) (o : Outcome E) → Survives o → Survives (with_reply reply o)
with_reply-Survives reply panicked h = h
with_reply-Survives reply (receiving replies) h = tt
with_reply-Survives reply (failed e replies) h = tt

after_publish-Survives :
    {E : Type 0} (outcome : Published E) (reply : List ℕ) (later : Outcome E)
    → Survives later
    → Survives (after_publish outcome reply later)
after_publish-Survives published reply later h = with_reply-Survives reply later h
after_publish-Survives payload_error reply later h = h
after_publish-Survives (session_error e) reply later h = tt

after_recv-Survives :
    {E : Type 0} (disconnected : E) (text : Bool) (reply : List ℕ) (outcome : Published E)
    (later : Outcome E)
    → Survives later
    → Survives (after_recv disconnected text (some reply) outcome later)
after_recv-Survives disconnected false reply outcome later h = tt
after_recv-Survives disconnected true reply outcome later h =
    after_publish-Survives outcome reply later h

pub recv_loop-Survives :
    (heapless : Heapless) {E : Type 0} (disconnected : E) (rounds : List (Round E))
    → AllShort rounds
    → Survives (recv_loop heapless disconnected rounds)
unfolding recv_loop
recv_loop-Survives heapless disconnected [] h = tt
recv_loop-Survives heapless disconnected (recv_failed e ∷ rest) h = tt
recv_loop-Survives heapless disconnected (message payload outcome ∷ rest) h =
    subst
      (λ reply. Survives (
        after_recv disconnected (is_utf8 payload) reply outcome
          (recv_loop heapless disconnected rest)))
      (sym (echo_whole heapless payload h.0))
      (after_recv-Survives disconnected (is_utf8 payload) (echoing_back ++ payload) outcome
        (recv_loop heapless disconnected rest) (recv_loop-Survives heapless disconnected rest h.1))
