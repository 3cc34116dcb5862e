-- ===== src/Mqtt/Utf8.antt =====
-- What src/mqtt.rs uses of the standard library's text: `core::str::from_utf8` and the slice
-- `&text[..take]`, over bytes.
use ra6m3_rtic.Prelude.{
  ℕ, Bool, true, false, not, ◌&&◌, Option, none, some, List, [], ◌∷◌, leb, ltb, ◌==◌, if◌then◌else◌,
}
use ra6m3_rtic.Prelude.Lists.{length, get_elem?, take}

abbrev pub within : ℕ → ℕ → ℕ → Bool
within lo hi b = leb lo b && leb b hi

-- The ranges of the bytes that must follow a leading byte (Unicode, table 3-7).
abbrev pub followers : ℕ → Option (List (ℕ × ℕ))
followers b =
    if ltb b 0x80
    then some []
    else if within 0xC2 0xDF b
    then some ((0x80, 0xBF) ∷ [])
    else if b == 0xE0
    then some ((0xA0, 0xBF) ∷ (0x80, 0xBF) ∷ [])
    else if b == 0xED
    then some ((0x80, 0x9F) ∷ (0x80, 0xBF) ∷ [])
    else if within 0xE1 0xEF b
    then some ((0x80, 0xBF) ∷ (0x80, 0xBF) ∷ [])
    else if b == 0xF0
    then some ((0x90, 0xBF) ∷ (0x80, 0xBF) ∷ (0x80, 0xBF) ∷ [])
    else if within 0xF1 0xF3 b
    then some ((0x80, 0xBF) ∷ (0x80, 0xBF) ∷ (0x80, 0xBF) ∷ [])
    else if b == 0xF4
    then some ((0x80, 0x8F) ∷ (0x80, 0xBF) ∷ (0x80, 0xBF) ∷ [])
    else none

-- `from_utf8` succeeds: every sequence is complete and in range. The first list is what the
-- current sequence still wants.
unfoldable pub utf8_from : List (ℕ × ℕ) → List ℕ → Bool
utf8_from [] [] = true
utf8_from (_ ∷ _) [] = false
utf8_from [] (b ∷ bs) = elim (followers b) [ none ↦ false | some wanted ↦ utf8_from wanted bs ]
utf8_from ((lo, hi) ∷ wanted) (b ∷ bs) = elim (within lo hi b) [
  | true ↦ utf8_from wanted bs
  | false ↦ false
]

unfoldable pub is_utf8 : List ℕ → Bool
unfolding utf8_from
is_utf8 bytes = utf8_from [] bytes

-- A byte that continues a sequence, 0b10xxxxxx.
abbrev pub is_continuation : ℕ → Bool
is_continuation b = within 0x80 0xBF b

-- `str::is_char_boundary`
unfoldable pub is_char_boundary : List ℕ → ℕ → Bool
is_char_boundary text i =
    if i == 0
    then true
    else elim (get_elem? text i) [ none ↦ i == length text | some b ↦ not (is_continuation b) ]

-- `&text[..end]`; `none` is the panic at an index that is no boundary.
unfoldable pub slice_to : List ℕ → ℕ → Option (List ℕ)
unfolding is_char_boundary
slice_to text end = if is_char_boundary text end then some (take end text) else none
