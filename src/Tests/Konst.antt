-- ===== src/Tests/Konst.antt =====
-- The addresses of env.toml.example, read with a splitting of texts as src/conf.rs asks for it.
use ra6m3_rtic.Prelude.{
  ℕ, ◌≡◌, ◌≢◌, refl, Option, none, some, List, [], ◌∷◌, ◌++◌, ◌==◌, if◌then◌else◌, arith,
}
use ra6m3_rtic.Conf.Address.{All, Konst, ip_v4, netmask}
use ra6m3_rtic.Conf.Print.{print, joined}
use ra6m3_rtic.Conf.RoundTrip.{ip_v4-print}

abbrev extend : ℕ → List (List ℕ) → List (List ℕ)
extend c [] = (c ∷ []) ∷ []
extend c (t ∷ ts) = (c ∷ t) ∷ ts

abbrev split_at : List ℕ → ℕ → List (List ℕ)
split_at [] sep = [] ∷ []
split_at (c ∷ cs) sep = let rest = split_at cs sep in if c == sep then [] ∷ rest else extend c rest

abbrev behind : ℕ → Option (List ℕ × List ℕ) → Option (List ℕ × List ℕ)
behind c none = none
behind c (some (a, b)) = some (c ∷ a, b)

abbrev split_first_at : List ℕ → ℕ → Option (List ℕ × List ℕ)
split_first_at [] sep = none
split_first_at (c ∷ cs) sep =
    let rest = split_first_at cs sep in if c == sep then some ([], cs) else behind c rest

split_at_last : (a : List ℕ) (sep : ℕ) → All (λ c. c ≢ sep) a → split_at a sep ≡ a ∷ []
split_at_last [] sep h = refl
split_at_last (c ∷ cs) sep (ne, h) = ground (arith, split_at_last cs sep h)

split_at_first :
    (a b : List ℕ) (sep : ℕ)
    → All (λ c. c ≢ sep) a
    → split_at (a ++ sep ∷ b) sep ≡ a ∷ split_at b sep
split_at_first [] b sep h = ground arith
split_at_first (c ∷ cs) b sep (ne, h) = ground (arith, split_at_first cs b sep h)

split_first_at_first :
    (a b : List ℕ) (sep : ℕ)
    → All (λ c. c ≢ sep) a
    → split_first_at (a ++ sep ∷ b) sep ≡ some (a, b)
split_first_at_first [] b sep h = ground arith
split_first_at_first (c ∷ cs) b sep (ne, h) = ground (arith, split_first_at_first cs b sep h)

abbrev splitting : Konst
splitting = record {
  split = split_at;
  split_once = split_first_at;
  split_last = split_at_last;
  split_first = split_at_first;
  split_once_first = split_first_at_first;
}

abbrev four : ℕ → ℕ → ℕ → ℕ → List ℕ
four a b c d = a ∷ b ∷ c ∷ d ∷ []

ip_v4-print_example :
    let env = joined 10 b'.' (192 ∷ 168 ∷ 69 ∷ 100 ∷ []) ++ b'/' ∷ print 10 24 in
    (ip_v4 splitting env four ≡ some (four 192 168 69 100)) × (netmask splitting env ≡ some 24)
ip_v4-print_example = ip_v4-print splitting four 192 168 69 100 24 (omega arith) (omega arith)
