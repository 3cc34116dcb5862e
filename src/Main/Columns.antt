-- ===== src/Main/Columns.antt =====
-- How the time stamp of a log line of src/log_ra6m3_setup.rs can be read.
use mathlib.Core.List.{flatten, append_assoc}
use ra6m3_rtic.Prelude.{
  ℕ, zero, suc, Bool, not, if◌then◌else◌, ◌+◌, ◌-◌, ◌*◌, ◌/◌, ◌%◌, ◌≤◌, ◌<◌, ◌≡◌, ◌∙◌, refl, ap,
  true, false, ◌&&◌, Option, none, some, List, [], ◌∷◌, ◌++◌, ltb, leb, ◌==◌, arith, Bool-cases,
  inl, inr,
}
use ra6m3_rtic.Prelude.Lists.{length, replicate}
use ra6m3_rtic.Conf.Print.{digit, digits, print}
use ra6m3_rtic.Main.Uptime.{stamp}
use ra6m3_rtic.Main.Line.{pad_left, pad_right, log_line}

abbrev pub is_digit : ℕ → Bool
is_digit c = leb b'0' c && leb c b'9'

-- The number that a text begins with, behind `acc`, and what follows it.
abbrev pub decimal : ℕ → List ℕ → ℕ × List ℕ
decimal acc [] = (acc, [])
decimal acc (c ∷ cs) = elim (is_digit c) [
  | true ↦ decimal (acc * 10 + (c - b'0')) cs
  | false ↦ (acc, c ∷ cs)
]

abbrev pub skip_blanks : List ℕ → List ℕ
skip_blanks [] = []
skip_blanks (c ∷ cs) = elim (c == b' ') [ true ↦ skip_blanks cs | false ↦ c ∷ cs ]

-- Three digits by their places, with no other digit behind them: tenths, hundredths, thousandths.
abbrev pub thousandths : List ℕ → Option ℕ
thousandths (a ∷ b ∷ c ∷ d ∷ cs) =
    if is_digit a && is_digit b && is_digit c && not (is_digit d)
    then some ((a - b'0') * 100 + (b - b'0') * 10 + (c - b'0'))
    else none
thousandths _ = none

-- The seconds, and behind a point the milliseconds.
abbrev pub with_millis : ℕ → Option ℕ → Option ℕ
with_millis secs none = none
with_millis secs (some millis) = some (secs * 1000 + millis)

abbrev pub after_secs : ℕ × List ℕ → Option ℕ
after_secs (secs, []) = none
after_secs (secs, c ∷ cs) = if c == b'.' then with_millis secs (thousandths cs) else none

-- The uptime of a log line, in milliseconds.
abbrev pub read_stamp : List ℕ → Option ℕ
read_stamp [] = none
read_stamp (c ∷ cs) = after_secs (decimal 0 (skip_blanks cs))

module _ (out : List ℕ) where
  decimal-digit :
      (d acc n : ℕ) → d < 10 → acc * 10 + d ≡ n → decimal acc (digit d ∷ out) ≡ decimal n out
  decimal-digit d acc n h e = ground arith

  digit_blank : (d : ℕ) → d < 10 → skip_blanks (digit d ∷ out) ≡ digit d ∷ out
  digit_blank d h = ground arith

digits-append :
    (fuel n : ℕ) (out rest : List ℕ) → digits 10 fuel n out ++ rest ≡ digits 10 fuel n (out ++ rest)
unfolding digits
digits-append zero n out rest = refl
digits-append (suc fuel) n out rest = elim (Bool-cases (ltb n 10)) [
  | inl small ↦ rw (small, digits, ◌++◌) refl
  | inr large ↦ rw (large, digits, ◌++◌) (digits-append fuel (n / 10) (digit (n % 10) ∷ out) rest)
]

decimal-digits :
    (fuel n : ℕ) (out : List ℕ) → n ≤ fuel → decimal 0 (digits 10 fuel n out) ≡ decimal n out
unfolding digits
decimal-digits zero n out le = decimal-digit out n 0 n (omega arith) (omega arith)
decimal-digits (suc fuel) n out le = elim (Bool-cases (ltb n 10)) [
  | inl small ↦ rw (small, digits) (decimal-digit out n 0 n (ground arith) (omega arith))
  | inr large ↦
      rw (large, digits)
        (decimal-digits fuel (n / 10) (digit (n % 10) ∷ out) (ground arith)
          ∙ decimal-digit out (n % 10) (n / 10) n (omega arith) (omega arith))
]

skip_blanks-digits :
    (fuel n : ℕ) (out : List ℕ)
    → n ≤ fuel
    → skip_blanks (digits 10 fuel n out) ≡ digits 10 fuel n out
unfolding digits
skip_blanks-digits zero n out le = digit_blank out n (omega arith)
skip_blanks-digits (suc fuel) n out le = elim (Bool-cases (ltb n 10)) [
  | inl small ↦ rw (small, digits) (digit_blank out n (ground arith))
  | inr large ↦
      rw (large, digits) (skip_blanks-digits fuel (n / 10) (digit (n % 10) ∷ out) (ground arith))
]

skip_blanks-replicate : (k : ℕ) (t : List ℕ) → skip_blanks (replicate k b' ' ++ t) ≡ skip_blanks t
skip_blanks-replicate zero t = refl
skip_blanks-replicate (suc k) t = skip_blanks-replicate k t

decimal-replicate : (k : ℕ) (t : List ℕ) → decimal 0 (replicate k b'0' ++ t) ≡ decimal 0 t
decimal-replicate zero t = refl
decimal-replicate (suc k) t = decimal-replicate k t

module _ (width n : ℕ) (rest : List ℕ) where
  print-append : print 10 n ++ rest ≡ digits 10 n n rest
  unfolding print
  print-append = digits-append n n [] rest

  padded :
      (fill : ℕ)
      → pad_left fill width (print 10 n) ++ rest
        ≡ replicate (width - length (print 10 n)) fill ++ digits 10 n n rest
  padded fill =
      append_assoc (replicate (width - length (print 10 n)) fill) (print 10 n) rest
      ∙ ap (λ t. replicate (width - length (print 10 n)) fill ++ t) print-append

  skip_blanks-pad_left : skip_blanks (pad_left b' ' width (print 10 n) ++ rest) ≡ digits 10 n n rest
  skip_blanks-pad_left =
      ap skip_blanks (padded b' ')
      ∙ skip_blanks-replicate (width - length (print 10 n)) (digits 10 n n rest)
      ∙ skip_blanks-digits n n rest (omega arith)

digits-last : (fuel n : ℕ) (out : List ℕ) → n < 10 → digits 10 fuel n out ≡ digit n ∷ out
unfolding digits
digits-last zero n out h = refl
digits-last (suc fuel) n out h = ground arith

digits-more :
    (fuel n : ℕ) (out : List ℕ)
    → 10 ≤ n
    → digits 10 (suc fuel) n out ≡ digits 10 fuel (n / 10) (digit (n % 10) ∷ out)
unfolding digits
digits-more fuel n out h = let e : ltb n 10 ≡ false = ground arith in rw (e, digits) refl

same_digits :
    (a b c a' b' c' : ℕ)
    → a ≡ a'
    → b ≡ b'
    → c ≡ c'
    → digit a ∷ digit b ∷ digit c ∷ [] ≡ digit a' ∷ digit b' ∷ digit c' ∷ []
same_digits a b c a' b' c' ea eb ec = rw (ea, eb, ec) refl

-- Below 1000 the padded digits are those of the three places.
places :
    (n : ℕ)
    → n < 1000
    → pad_left b'0' 3 (print 10 n) ≡ digit (n / 100) ∷ digit (n / 10 % 10) ∷ digit (n % 10) ∷ []
unfolding print
places zero h = refl
places (suc zero) h = refl
places (suc (suc m)) h =
    let n = suc (suc m) in
    elim (Bool-cases (ltb n 10)) [
      | inl small ↦
          ap (pad_left b'0' 3) (digits-last n n [] (ground arith))
          ∙ same_digits 0 0 n _ _ _ (ground arith) (ground arith) (ground arith)
      | inr large ↦ elim (Bool-cases (ltb n 100)) [
        | inl small ↦
            ap (pad_left b'0' 3) (
              digits-more (suc m) n [] (ground arith)
              ∙ digits-last (suc m) (n / 10) (digit (n % 10) ∷ []) (ground arith))
            ∙ same_digits 0 (n / 10) (n % 10) _ _ _ (ground arith) (ground arith) refl
        | inr larger ↦
            ap (pad_left b'0' 3) (
              digits-more (suc m) n [] (ground arith)
              ∙ digits-more m (n / 10) (digit (n % 10) ∷ []) (ground arith)
              ∙ digits-last m (n / 10 / 10) _ (ground arith))
            ∙ same_digits (n / 10 / 10) (n / 10 % 10) (n % 10) _ _ _ (omega arith) refl refl
      ]
    ]

digit_places :
    (a b c d : ℕ) (rest : List ℕ)
    → a < 10
    → b < 10
    → c < 10
    → is_digit d ≡ false
    → thousandths (digit a ∷ digit b ∷ digit c ∷ d ∷ rest) ≡ some (a * 100 + b * 10 + c)
digit_places a b c d rest ha hb hc e =
    let ea : is_digit (digit a) ≡ true = ground arith in
    let eb : is_digit (digit b) ≡ true = ground arith in
    let ec : is_digit (digit c) ≡ true = ground arith in
    let value : (digit a - b'0') * 100 + (digit b - b'0') * 10 + (digit c - b'0')
        ≡ a * 100 + b * 10 + c =
      ground arith in
    ground (arith, ea, eb, ec, e, ap some value)

-- The uptime is read back from a log line in whole milliseconds, rounded down, whatever the uptime
-- is and whatever follows it in the line, by a reader that takes exactly three digits behind the
-- point, each by its place.
pub read_stamp-log_line :
    (us : ℕ) (level target args : List ℕ)
    → read_stamp (log_line us level target args) ≡ some (us / 1000)
unfolding log_line stamp flatten
read_stamp-log_line us level target args =
    let secs = us / 1_000_000 in
    let millis = us % 1_000_000 / 1_000 in
    let more =
      b']'
      ∷ b' '
      ∷ (pad_right b' ' 5 level ++ b' ' ∷ b'[' ∷ (target ++ b']' ∷ b' ' ∷ (args ++ b'\n' ∷ []))) in
    let after = pad_left b'0' 3 (print 10 millis) ++ more in
    ap (λ t. after_secs (decimal 0 t)) (skip_blanks-pad_left 5 secs (b'.' ∷ after))
    ∙ ap after_secs (decimal-digits secs secs (b'.' ∷ after) (omega arith))
    ∙ ap (with_millis secs) (
        ap (λ t. thousandths (t ++ more)) (places millis (omega arith))
        ∙ digit_places (millis / 100) (millis / 10 % 10) (millis % 10) b']'
            (b' ' ∷ pad_right b' ' 5 level
              ++ b' ' ∷ b'[' ∷ (target ++ b']' ∷ b' ' ∷ (args ++ b'\n' ∷ [])))
            (omega arith) (omega arith) (omega arith) refl)
    ∙ ap some (omega arith)
