-- ===== src/Main/Widths.antt =====
-- Where the columns of a log line of src/log_ra6m3_setup.rs are.
use mathlib.Core.List.{flatten}
use ra6m3_rtic.Prelude.{
  ℕ, zero, suc, ◌+◌, ◌-◌, ◌*◌, ◌/◌, ◌%◌, ◌≤◌, ◌<◌, ◌≡◌, ◌∙◌, refl, List, [], ◌∷◌, ◌++◌, ltb, arith,
  Bool-cases, inl, inr,
}
use ra6m3_rtic.Prelude.Lists.{length, length-append, replicate, length-replicate, drop, drop-append}
use ra6m3_rtic.Conf.Print.{digit, digits, print}
use ra6m3_rtic.Main.Uptime.{stamp}
use ra6m3_rtic.Main.Line.{pad_left, pad_right, log_line}

-- The widths of the columns.
abbrev pow10 : ℕ → ℕ
pow10 zero = 1
pow10 (suc k) = 10 * pow10 k

length-digits :
    (fuel n k : ℕ) (out : List ℕ)
    → n ≤ fuel
    → n < pow10 (suc k)
    → length (digits 10 fuel n out) ≤ suc k + length out
unfolding digits
length-digits zero n k out le small = omega arith
length-digits (suc fuel) n zero out le small = ground arith
length-digits (suc fuel) n (suc k) out le small = elim (Bool-cases (ltb n 10)) [
  | inl short ↦ rw (short, digits) (omega arith)
  | inr long ↦
      rw (long, digits)
        (omega (
          arith,
          length-digits fuel (n / 10) k (digit (n % 10) ∷ out) (ground arith) (omega arith),
        ))
]

length-pad_left : (c w : ℕ) (t : List ℕ) → length t ≤ w → length (pad_left c w t) ≡ w
length-pad_left c w t fits =
    omega (arith, length-append (replicate (w - length t) c) t, length-replicate (w - length t) c)

length-pad_right : (c w : ℕ) (t : List ℕ) → length t ≤ w → length (pad_right c w t) ≡ w
length-pad_right c w t fits =
    omega (arith, length-append t (replicate (w - length t) c), length-replicate (w - length t) c)

length-print : (n k : ℕ) → n < pow10 (suc k) → length (print 10 n) ≤ suc k
unfolding print
length-print n k small = omega (arith, length-digits n n k [] (omega arith) small)

drop-pad_left :
    (c w n : ℕ) (rest : List ℕ) (m k : ℕ)
    → n < pow10 (suc w)
    → suc w + k ≡ m
    → drop m (pad_left c (suc w) (print 10 n) ++ rest) ≡ drop k rest
drop-pad_left c w n rest m k small e =
    drop-append (pad_left c (suc w) (print 10 n)) rest m k
      (omega (arith, e, length-pad_left c (suc w) (print 10 n) (length-print n w small)))

-- For an uptime below 10^5 seconds and a level of at most five letters, the target of every line
-- stands in the same column, behind 19 bytes.
pub log_line-columns :
    (us : ℕ) (level target args : List ℕ)
    → us < 100_000_000_000
    → length level ≤ 5
    → drop 19 (log_line us level target args) ≡ target ++ b']' ∷ b' ' ∷ (args ++ b'\n' ∷ [])
unfolding log_line stamp flatten
log_line-columns us level target args early short =
    let secs = us / 1_000_000 in
    let millis = us % 1_000_000 / 1_000 in
    let named = target ++ b']' ∷ b' ' ∷ (args ++ b'\n' ∷ []) in
    let leveled = pad_right b' ' 5 level ++ b' ' ∷ b'[' ∷ named in
    let timed = pad_left b'0' 3 (print 10 millis) ++ b']' ∷ b' ' ∷ leveled in
    drop-pad_left b' ' 4 secs (b'.' ∷ timed) 18 13 (omega arith) refl
    ∙ drop-pad_left b'0' 2 millis (b']' ∷ b' ' ∷ leveled) 12 9 (omega arith) refl
    ∙ drop-append (pad_right b' ' 5 level) (b' ' ∷ b'[' ∷ named) 7 2
        (omega (arith, length-pad_right b' ' 5 level short))
