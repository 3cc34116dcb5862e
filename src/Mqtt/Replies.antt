-- ===== src/Mqtt/Replies.antt =====
-- What src/mqtt.rs replies, and when it panics.
use Prim.Native.Nat.{min}
use ra6m3_rtic.Prelude.{
  ℕ, ◌-◌, ◌≤◌, ◌<◌, ◌≡◌, ◌∙◌, refl, ap, ◌⊎◌, inl, inr, true, false, none, some, List, [], ◌∷◌, ◌++◌,
  map, arith, Bool-cases,
}
use ra6m3_rtic.Prelude.Lists.{
  length, get_elem?, take, length-take-le, take_all, get_elem?-eq_none, get_elem?_of_lt,
}
use ra6m3_rtic.Mqtt.Utf8.{is_utf8, slice_to, is_continuation}
use ra6m3_rtic.Mqtt.Echo.{
  Heapless, echoing_back, echo, published, session_error, payload_error, Round, recv_failed,
  message, receiving, recv_loop, push_slice,
}

slice_to-length : (text : List ℕ) → slice_to text (length text) ≡ some text
unfolding slice_to
slice_to-length text = ground (
  arith,
  get_elem?-eq_none text (length text) (omega arith),
  take_all (length text) text (omega arith),
)

slice_to_cut :
    (text : List ℕ) (end b : ℕ)
    → 0 < end
    → get_elem? text end ≡ some b
    → is_continuation b ≡ true
    → slice_to text end ≡ none
unfolding slice_to
slice_to_cut text end b p e c = ground arith

slice_to_boundary :
    (text : List ℕ) (end b : ℕ)
    → get_elem? text end ≡ some b
    → is_continuation b ≡ false
    → slice_to text end ≡ some (take end text)
unfolding slice_to
slice_to_boundary text end b e c = ground arith

module _ (heapless : Heapless) where
  open heapless use {
    new, bytes, push_str, capacity, len, bytes-new, capacity_lem, len_lem, push_str_fits,
  }

  greeting : bytes (push_str echoing_back new).1 ≡ echoing_back
  greeting = push_str_fits echoing_back new (rw bytes-new (omega arith)) ∙ rw bytes-new refl

  room : capacity (push_str echoing_back new).1 - len (push_str echoing_back new).1 ≡ 498
  room =
      rw
        (
          capacity_lem (push_str echoing_back new).1,
          len_lem (push_str echoing_back new).1,
          greeting,
        )
        refl

  -- The reply, with the slice's end worked out.
  echo_lem :
      (text : List ℕ)
      → echo heapless text
        ≡ push_slice heapless (push_str echoing_back new).1 (slice_to text (min (length text) 498))
  unfolding echo
  echo_lem text =
      ap
        (λ n.
          push_slice heapless (push_str echoing_back new).1 (slice_to text (min (length text) n)))
        room

  push_slice_lem :
      (slice : List ℕ)
      → length slice ≤ 498
      → push_slice heapless (push_str echoing_back new).1 (some slice)
        ≡ some (echoing_back ++ slice)
  push_slice_lem slice h = ap some (
      push_str_fits slice (push_str echoing_back new).1 (rw greeting (omega arith))
      ∙ ap (λ bs. bs ++ slice) greeting)

  -- A message of at most 498 bytes is echoed whole, behind the greeting.
  pub echo_whole :
      (text : List ℕ) → length text ≤ 498 → echo heapless text ≡ some (echoing_back ++ text)
  echo_whole text h =
      let e : min (length text) 498 ≡ length text = omega arith in
      echo_lem text
      ∙ ap (λ n. push_slice heapless (push_str echoing_back new).1 (slice_to text n)) e
      ∙ ap (push_slice heapless (push_str echoing_back new).1) (slice_to-length text)
      ∙ push_slice_lem text h

  -- The byte at which a longer message is cut continues a character.
  abbrev pub IsCut : List ℕ → Type 0
  IsCut text = (b : ℕ) × (get_elem? text 498 ≡ some b) × (is_continuation b ≡ true)

  long :
      (text : List ℕ)
      → 498 < length text
      → echo heapless text ≡ push_slice heapless (push_str echoing_back new).1 (slice_to text 498)
  long text h =
      let e : min (length text) 498 ≡ 498 = omega arith in
      echo_lem text
      ∙ ap (λ n. push_slice heapless (push_str echoing_back new).1 (slice_to text n)) e

  -- The echo of a message of more than 498 bytes panics exactly if byte 498 continues a character;
  -- otherwise its first 498 bytes are echoed behind the greeting.
  pub echo_long :
      (text : List ℕ)
      → 498 < length text
      → (IsCut text × (echo heapless text ≡ none))
        ⊎ ((¬ IsCut text) × (echo heapless text ≡ some (echoing_back ++ take 498 text)))
  echo_long text h =
      let (b, found) = get_elem?_of_lt text 498 h in
      elim (Bool-cases (is_continuation b)) [
        | inl inside ↦ inl (
          (b, found, inside),
          long text h
              ∙ ap (push_slice heapless (push_str echoing_back new).1)
                  (slice_to_cut text 498 b (omega arith) found inside),
        )
        | inr boundary ↦ inr (
          λ (c, found', inside). cc (found, found'),
          long text h
              ∙ ap (push_slice heapless (push_str echoing_back new).1)
                  (slice_to_boundary text 498 b found boundary)
              ∙ push_slice_lem (take 498 text) (length-take-le 498 text),
        )
      ]

  -- The messages of a connection that are text of at most 498 bytes, with no error of the session.
  abbrev pub IsServed : {E : Type 0} → List (Round E) → Type 0
  IsServed [] = Unit
  IsServed (recv_failed e ∷ rest) = ⊥
  IsServed (message payload published ∷ rest) =
      (is_utf8 payload ≡ true) × (length payload ≤ 498) × IsServed rest
  IsServed (message payload payload_error ∷ rest) =
      (is_utf8 payload ≡ true) × (length payload ≤ 498) × IsServed rest
  IsServed (message payload (session_error e) ∷ rest) = ⊥

  -- The messages whose replies `publish` takes; the others are too big for the buffer of the session.
  abbrev pub taken : {E : Type 0} → List (Round E) → List (List ℕ)
  taken [] = []
  taken (message payload published ∷ rest) = payload ∷ taken rest
  taken (_ ∷ rest) = taken rest

  -- The messages are text of at most 498 bytes, on a connection without errors of the session.
  -- Each message whose reply `publish` takes has been
  -- answered once, in order, with the greeting and the whole message, and nothing else has been sent:
  -- a message whose reply is too big for the buffer of the session has no answer, and ends nothing.
  -- The loop is receiving.
  pub recv_loop_replies :
      {E : Type 0} (disconnected : E) (rounds : List (Round E))
      → IsServed rounds
      → recv_loop heapless disconnected rounds
        ≡ receiving (map (λ payload. echoing_back ++ payload) (taken rounds))
  unfolding recv_loop
  recv_loop_replies disconnected [] h = refl
  recv_loop_replies disconnected (recv_failed e ∷ rest) h = absurd h
  recv_loop_replies disconnected (message payload published ∷ rest) h =
      rw (h.0, echo_whole payload h.1, recv_loop_replies disconnected rest h.2)
  recv_loop_replies disconnected (message payload payload_error ∷ rest) h =
      rw (h.0, echo_whole payload h.1, recv_loop_replies disconnected rest h.2)
  recv_loop_replies disconnected (message payload (session_error e) ∷ rest) h = absurd h
