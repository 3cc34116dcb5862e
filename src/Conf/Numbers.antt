-- ===== src/Conf/Numbers.antt =====
-- A number that is printed in radix 10 or 16 is read back by `from_str_radix`.
use ra6m3_rtic.Prelude.{
  ℕ, zero, suc, ◌+◌, ◌*◌, ◌/◌, ◌%◌, ◌≤◌, ◌<◌, ◌≡◌, ◌≢◌, ◌∙◌, refl, ap, ◌⊎◌, inl, inr, true, some,
  List, [], ◌∷◌, ltb, arith, Bool-cases,
}
use ra6m3_rtic.Conf.Radix.{to_digit, scan, from_str_radix}
use ra6m3_rtic.Conf.Address.{All}
use ra6m3_rtic.Conf.Print.{digit, digits, print}

-- What the round trip needs of a radix.
pub record IsRadix (radix : ℕ) : Type 0 where
  pub small_digit : (d : ℕ) → d < radix → to_digit radix (digit d) ≡ some d
  pub remainder : (n : ℕ) → (n % radix < radix) × (n / radix * radix + n % radix ≡ n)
  pub quotient : (n : ℕ) → radix ≤ n → n / radix < n
  pub alphabet :
      (d : ℕ)
      → d < radix
      → ((b'0' ≤ digit d) × (digit d ≤ b'9')) ⊎ ((b'a' ≤ digit d) × (digit d ≤ b'f'))

IsRadix-10-small_digit : (d : ℕ) → d < 10 → to_digit 10 (digit d) ≡ some d
unfolding to_digit
IsRadix-10-small_digit d h = ground arith

IsRadix-16-small_digit : (d : ℕ) → d < 16 → to_digit 16 (digit d) ≡ some d
unfolding to_digit
IsRadix-16-small_digit d h = ground arith

pub IsRadix-10 : IsRadix 10
IsRadix-10 = record {
  small_digit = IsRadix-10-small_digit;
  remainder = λ n. (omega arith, omega arith);
  quotient = λ n h. omega arith;
  alphabet = λ d h. inl (ground arith);
}

IsRadix-16-alphabet :
    (d : ℕ) → d < 16 → ((b'0' ≤ digit d) × (digit d ≤ b'9')) ⊎ ((b'a' ≤ digit d) × (digit d ≤ b'f'))
IsRadix-16-alphabet d h = elim (Bool-cases (ltb d 10)) [
  | inl low ↦ inl (ground arith)
  | inr high ↦ inr (ground arith)
]

pub IsRadix-16 : IsRadix 16
IsRadix-16 = record {
  small_digit = IsRadix-16-small_digit;
  remainder = λ n. (omega arith, omega arith);
  quotient = λ n h. omega arith;
  alphabet = IsRadix-16-alphabet;
}

-- A letter or a digit, as it is printed.
abbrev pub IsPrinted : ℕ → Type 0
IsPrinted c = ((b'0' ≤ c) × (c ≤ b'9')) ⊎ ((b'a' ≤ c) × (c ≤ b'f'))

module _ (limit radix : ℕ) (is_radix : IsRadix radix) where
  -- Reading one more digit.
  scan-digit :
      (d acc n : ℕ) (out : List ℕ)
      → d < radix
      → acc * radix + d ≡ n
      → n < limit
      → scan limit radix (digit d ∷ out) acc ≡ scan limit radix out n
  unfolding scan
  scan-digit d acc n out h e fits =
      let fits' : ltb (acc * radix + d) limit ≡ true = ground arith in
      rw (is_radix.small_digit d h, scan) (rw fits' (ap (scan limit radix out) e))

  scan-digits :
      (fuel n : ℕ) (out : List ℕ)
      → n ≤ fuel
      → n < limit
      → scan limit radix (digits radix fuel n out) 0 ≡ scan limit radix out n
  unfolding digits
  scan-digits zero n out le fits =
      scan-digit n 0 n out (omega (arith, (is_radix.remainder 0).0)) (omega arith) fits
  scan-digits (suc fuel) n out le fits = elim (Bool-cases (ltb n radix)) [
    | inl small ↦ rw (small, digits) (scan-digit n 0 n out (ground arith) (omega arith) fits)
    | inr large ↦
        let (below, whole) = is_radix.remainder n in
        let less : n / radix < n = is_radix.quotient n (ground arith) in
        rw (large, digits)
          (scan-digits fuel (n / radix) (digit (n % radix) ∷ out) (omega arith) (omega arith)
            ∙ scan-digit (n % radix) (n / radix) n out below whole fits)
  ]

  abbrev pub AllPrinted : List ℕ → Type 0
  AllPrinted = All IsPrinted

  digits-AllPrinted :
      (fuel n : ℕ) (out : List ℕ)
      → n ≤ fuel
      → AllPrinted out
      → AllPrinted (digits radix fuel n out) × (digits radix fuel n out ≢ [])
  unfolding digits
  digits-AllPrinted zero n out le h =
      ((is_radix.alphabet n (omega (arith, (is_radix.remainder 0).0)), h), λ e. cc)
  digits-AllPrinted (suc fuel) n out le h = elim (Bool-cases (ltb n radix)) [
    | inl small ↦ rw (small, digits) ((is_radix.alphabet n (ground arith), h), λ e. cc)
    | inr large ↦
        let less : n / radix < n = is_radix.quotient n (ground arith) in
        rw (large, digits)
          (digits-AllPrinted fuel (n / radix) (digit (n % radix) ∷ out) (omega arith)
            (is_radix.alphabet (n % radix) (is_radix.remainder n).0, h))
  ]

  -- A text that begins with a letter or a digit has no sign.
  from_str_radix-scan :
      (t : List ℕ) → AllPrinted t → t ≢ [] → from_str_radix limit radix t ≡ scan limit radix t 0
  unfolding from_str_radix
  from_str_radix-scan [] h ne = absurd (ne refl)
  from_str_radix-scan (c ∷ cs) h ne = ground arith

  pub print-AllPrinted : (n : ℕ) → AllPrinted (print radix n)
  unfolding print
  print-AllPrinted n = (digits-AllPrinted n n [] (omega arith) tt).0

  pub from_str_radix-print :
      (n : ℕ) → n < limit → from_str_radix limit radix (print radix n) ≡ some n
  unfolding print scan
  from_str_radix-print n fits =
      let (printed, ne) = digits-AllPrinted n n [] (omega arith) tt in
      from_str_radix-scan (digits radix n n []) printed ne ∙ scan-digits n n [] (omega arith) fits
