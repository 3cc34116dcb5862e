-- ===== src/Conf/Radix.antt =====
-- src/conf.rs: `parse_u8` and `parse_u16`, over bytes. `none` is a panic of a constant, so that the
-- program does not compile. `from_str_radix` is the standard library's; `limit` is 2 to the width.
use ra6m3_rtic.Prelude.{
  ℕ, ◌+◌, ◌-◌, ◌*◌, ◌^◌, true, false, ◌||◌, ◌&&◌, Option, none, some, List, [], ◌∷◌, ltb, leb, ◌==◌,
  if◌then◌else◌,
}
use ra6m3_rtic.Prelude.Lists.{is_empty}

-- The value of a character as a digit, if it is one of some radix up to 36.
abbrev pub digit_value : ℕ → Option ℕ
digit_value c =
    if leb b'0' c && leb c b'9'
    then some (c - b'0')
    else if leb b'a' c && leb c b'z'
    then some (c - b'a' + 10)
    else if leb b'A' c && leb c b'Z'
    then some (c - b'A' + 10)
    else none

-- `char::to_digit`
unfoldable pub to_digit : ℕ → ℕ → Option ℕ
to_digit radix c = elim (digit_value c) [
  | none ↦ none
  | some d ↦ if ltb d radix then some d else none
]

-- The digits behind `acc`. The checked product and the checked sum both succeed exactly if the sum
-- is below the limit.
unfoldable pub scan : ℕ → ℕ → List ℕ → ℕ → Option ℕ
unfolding to_digit
scan limit radix [] acc = some acc
scan limit radix (c ∷ cs) acc = elim (to_digit radix c) [
  | none ↦ none
  | some d ↦ elim (ltb (acc * radix + d) limit) [
    | true ↦ scan limit radix cs (acc * radix + d)
    | false ↦ none
  ]
]

-- `from_str_radix` of an unsigned type: a sign alone is refused, `+` is skipped, and `-` is no digit.
unfoldable pub from_str_radix : ℕ → ℕ → List ℕ → Option ℕ
unfolding scan
from_str_radix limit radix [] = none
from_str_radix limit radix (c ∷ cs) =
    if (c == b'+' || c == b'-') && is_empty cs
    then none
    else if c == b'+'
    then scan limit radix cs 0
    else scan limit radix (c ∷ cs) 0

-- `parse_u8`, `parse_u16`
unfoldable pub parse_u8 : ℕ → List ℕ → Option ℕ
unfolding from_str_radix
parse_u8 radix s = from_str_radix (2 ^ 8) radix s

unfoldable pub parse_u16 : ℕ → List ℕ → Option ℕ
unfolding from_str_radix
parse_u16 radix s = from_str_radix (2 ^ 16) radix s
