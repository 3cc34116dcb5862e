-- ===== src/Mqtt/Echo.antt =====
-- src/mqtt.rs: the reply to a message, and the loop over the messages.
use Prim.Native.Nat.{min}
use ra6m3_rtic.Prelude.{
  ℕ, ◌+◌, ◌-◌, ◌≤◌, ◌<◌, ◌≡◌, Bool, true, false, Option, none, some, List, [], ◌∷◌, ◌++◌, Result,
}
use ra6m3_rtic.Prelude.Lists.{length}
use ra6m3_rtic.Mqtt.Utf8.{is_utf8, slice_to}

-- What the code uses of `heapless::String<512>`, over bytes, as its documentation has it:
-- `push_str` appends if there is room, and otherwise fails and leaves the string alone.
pub record Heapless : Type 1 where
  pub Str : Type 0
  pub new : Str
  pub bytes : Str → List ℕ
  pub push_str : List ℕ → Str → Result (Unit {0}) (Unit {0}) × Str
  pub capacity : Str → ℕ
  pub len : Str → ℕ
  pub bytes-new : bytes new ≡ []
  pub capacity_lem : (s : Str) → capacity s ≡ 512
  pub len_lem : (s : Str) → len s ≡ length (bytes s)
  pub push_str_fits :
      (t : List ℕ) (s : Str)
      → length (bytes s) + length t ≤ 512
      → bytes (push_str t s).1 ≡ bytes s ++ t
  pub push_str_full :
      (t : List ℕ) (s : Str) → 512 < length (bytes s) + length t → (push_str t s).1 ≡ s

-- "Echoing back: "
abbrev pub echoing_back : List ℕ
echoing_back =
    b'E' ∷ b'c' ∷ b'h' ∷ b'o' ∷ b'i' ∷ b'n' ∷ b'g' ∷ b' ' ∷ b'b' ∷ b'a' ∷ b'c' ∷ b'k' ∷ b':' ∷ b' '
    ∷ []

module _ (heapless : Heapless) where
  open heapless use {new, bytes, push_str, capacity, len}

  -- `string.push_str(&text[..take])`, or the panic of the slice.
  abbrev pub push_slice : heapless.Str → Option (List ℕ) → Option (List ℕ)
  push_slice string none = none
  push_slice string (some slice) = some (bytes (push_str slice string).1)

  -- The payload of the reply to `text`; `none` is a panic.
  unfoldable pub echo : List ℕ → Option (List ℕ)
  echo text =
      let string = (push_str echoing_back new).1 in
      push_slice string (slice_to text (min (length text) (capacity string - len string)))

-- What `conn.publish` returns: `PubError::Session`, `PubError::Payload` or `Ok`.
pub data Published (E : Type 0) : Type 0 where
  published : Published E
  session_error : E → Published E
  payload_error : Published E

-- What the connection delivers in one round: `recv` fails, or gives a message, whose reply is
-- then published with some outcome. `E` is `minimq::Error`.
pub data Round (E : Type 0) : Type 0 where
  recv_failed : E → Round E
  message : List ℕ → Published E → Round E

-- How far the inner loop came, with the replies that `publish` has taken, in order.
pub data Outcome (E : Type 0) : Type 0 where
  panicked : Outcome E
  receiving : List (List ℕ) → Outcome E
  failed : E → List (List ℕ) → Outcome E

abbrev pub with_reply : {E : Type 0} → List ℕ → Outcome E → Outcome E
with_reply reply panicked = panicked
with_reply reply (receiving replies) = receiving (reply ∷ replies)
with_reply reply (failed e replies) = failed e (reply ∷ replies)

-- After the reply was handed over: `later` is the rest of the loop. A reply that is too big for the
-- buffer of the session is not sent, and the loop goes on.
abbrev pub after_publish : {E : Type 0} → Published E → List ℕ → Outcome E → Outcome E
after_publish published reply later = with_reply reply later
after_publish payload_error reply later = later
after_publish (session_error e) reply later = failed e []

-- A round with a message: was it text, its reply, the outcome of the publication, the rest.
abbrev pub after_recv :
    {E : Type 0} → E → Bool → Option (List ℕ) → Published E → Outcome E → Outcome E
after_recv disconnected false reply outcome later = failed disconnected []
after_recv disconnected true none outcome later = panicked
after_recv disconnected true (some reply) outcome later = after_publish outcome reply later

-- The inner `loop` of `mqtt`, over what the connection delivers.
unfoldable pub recv_loop : {E : Type 0} → Heapless → E → List (Round E) → Outcome E
recv_loop heapless disconnected [] = receiving []
recv_loop heapless disconnected (recv_failed e ∷ rest) = failed e []
recv_loop heapless disconnected (message payload outcome ∷ rest) =
    let later = recv_loop heapless disconnected rest in
    after_recv disconnected (is_utf8 payload) (echo heapless payload) outcome later
