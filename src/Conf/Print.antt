-- ===== src/Conf/Print.antt =====
-- How the variables of the environment are written (env.toml.example): numbers in lower case
-- without leading zeros, joined by a separator.
use ra6m3_rtic.Prelude.{
  ℕ, zero, suc, ◌+◌, ◌/◌, ◌%◌, true, false, List, [], ◌∷◌, ◌++◌, map, ltb, if◌then◌else◌,
}

abbrev pub digit : ℕ → ℕ
digit d = if ltb d 10 then b'0' + d else 87 + d

-- The digits of `n` in front of `out`; `n` rounds are more than enough.
unfoldable pub digits : ℕ → ℕ → ℕ → List ℕ → List ℕ
digits radix zero n out = digit n ∷ out
digits radix (suc fuel) n out = elim (ltb n radix) [
  | true ↦ digit n ∷ out
  | false ↦ digits radix fuel (n / radix) (digit (n % radix) ∷ out)
]

unfoldable pub print : ℕ → ℕ → List ℕ
unfolding digits
print radix n = digits radix n n []

abbrev pub join : ℕ → List (List ℕ) → List ℕ
join sep [] = []
join sep (t ∷ []) = t
join sep (t ∷ u ∷ ts) = t ++ sep ∷ join sep (u ∷ ts)

-- "192.168.69.100", "fdaa:0:0:0:0:0:0:100"
abbrev pub joined : ℕ → ℕ → List ℕ → List ℕ
joined radix sep ns = join sep (map (print radix) ns)
