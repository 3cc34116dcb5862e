-- ===== src/Conf/Address.antt =====
-- src/conf.rs: the constants that are parsed from the environment of the build. What the code uses
-- of the konst crate is a parameter.
use ra6m3_rtic.Prelude.{ℕ, ◌≡◌, ◌≢◌, Option, none, some, List, [], ◌∷◌, ◌++◌}
use ra6m3_rtic.Conf.Radix.{parse_u8, parse_u16}

abbrev pub All : (ℕ → Type 0) → List ℕ → Type 0
All P [] = Unit
All P (c ∷ cs) = P c × All P cs

-- `konst::string::split` and `split_once`, for a separator of one byte: they are documented as those
-- of `str`.
pub record Konst : Type 0 where
  pub split : List ℕ → ℕ → List (List ℕ)
  pub split_once : List ℕ → ℕ → Option (List ℕ × List ℕ)
  pub split_last : (a : List ℕ) (sep : ℕ) → All (λ c. c ≢ sep) a → split a sep ≡ a ∷ []
  pub split_first :
      (a b : List ℕ) (sep : ℕ) → All (λ c. c ≢ sep) a → split (a ++ sep ∷ b) sep ≡ a ∷ split b sep
  pub split_once_first :
      (a b : List ℕ) (sep : ℕ) → All (λ c. c ≢ sep) a → split_once (a ++ sep ∷ b) sep ≡ some (a, b)

-- `map` and `collect_const!`, as far as they are used: the first text that does not parse panics.
abbrev pub in_front : ℕ → Option (List ℕ) → Option (List ℕ)
in_front n none = none
in_front n (some ns) = some (n ∷ ns)

unfoldable pub collect : (List ℕ → Option ℕ) → List (List ℕ) → Option (List ℕ)
collect parse [] = some []
collect parse (t ∷ ts) = elim (parse t) [ none ↦ none | some n ↦ in_front n (collect parse ts) ]

-- `let [a, b, c, d] = …`: an array of another length does not compile.
abbrev pub array_4 {ℓ} : {A : Type ℓ} → (ℕ → ℕ → ℕ → ℕ → A) → Option (List ℕ) → Option A
array_4 constructor (some (a ∷ b ∷ c ∷ d ∷ [])) = some (constructor a b c d)
array_4 constructor _ = none

abbrev pub array_8 {ℓ} :
    {A : Type ℓ} → (ℕ → ℕ → ℕ → ℕ → ℕ → ℕ → ℕ → ℕ → A) → Option (List ℕ) → Option A
array_8 constructor (some (a ∷ b ∷ c ∷ d ∷ e ∷ f ∷ g ∷ h ∷ [])) = some (constructor a b c d e f g h)
array_8 constructor _ = none

-- The type `[u8; 6]` of the constant.
abbrev pub array_6 : Option (List ℕ) → Option (List ℕ)
array_6 (some (a ∷ b ∷ c ∷ d ∷ e ∷ f ∷ [])) = some (a ∷ b ∷ c ∷ d ∷ e ∷ f ∷ [])
array_6 _ = none

module _ (konst : Konst) where
  -- `parse_ipv4!`, `parse_ipv6!`
  unfoldable pub parse_ipv4 {ℓ} : {A : Type ℓ} → List ℕ → (ℕ → ℕ → ℕ → ℕ → A) → Option A
  unfolding collect parse_u8
  parse_ipv4 s constructor = array_4 constructor (collect (parse_u8 10) (konst.split s b'.'))

  unfoldable pub parse_ipv6 {ℓ} :
      {A : Type ℓ} → List ℕ → (ℕ → ℕ → ℕ → ℕ → ℕ → ℕ → ℕ → ℕ → A) → Option A
  unfolding collect parse_u16
  parse_ipv6 s constructor = array_8 constructor (collect (parse_u16 16) (konst.split s b':'))

  -- `split_ip`
  abbrev pub with_mask : Option (List ℕ × List ℕ) → Option (List ℕ × ℕ)
  with_mask none = none
  with_mask (some (ip, mask)) = elim (parse_u8 10 mask) [ none ↦ none | some n ↦ some (ip, n) ]

  unfoldable pub split_ip : List ℕ → Option (List ℕ × ℕ)
  unfolding parse_u8
  split_ip ip = with_mask (konst.split_once ip b'/')

  -- MAC
  unfoldable pub mac : List ℕ → Option (List ℕ)
  unfolding collect parse_u8
  mac env = array_6 (collect (parse_u8 16) (konst.split env b':'))

  -- IP_V4 and IP_V4_NETMASK, from the same variable; IP_V6 and IP_V6_NETMASK
  abbrev pub first_part {ℓ} : {A : Type ℓ} → (List ℕ → Option A) → Option (List ℕ × ℕ) → Option A
  first_part parse none = none
  first_part parse (some (ip, mask)) = parse ip

  abbrev pub second_part : Option (List ℕ × ℕ) → Option ℕ
  second_part none = none
  second_part (some (ip, mask)) = some mask

  unfoldable pub ip_v4 {ℓ} : {A : Type ℓ} → List ℕ → (ℕ → ℕ → ℕ → ℕ → A) → Option A
  unfolding parse_ipv4 split_ip
  ip_v4 env v4 = first_part (λ ip. parse_ipv4 ip v4) (split_ip env)

  unfoldable pub ip_v6 {ℓ} : {A : Type ℓ} → List ℕ → (ℕ → ℕ → ℕ → ℕ → ℕ → ℕ → ℕ → ℕ → A) → Option A
  unfolding parse_ipv6 split_ip
  ip_v6 env v6 = first_part (λ ip. parse_ipv6 ip v6) (split_ip env)

  unfoldable pub netmask : List ℕ → Option ℕ
  unfolding split_ip
  netmask env = second_part (split_ip env)

  -- IP_V4_GATEWAY, IP_V6_GATEWAY
  unfoldable pub ip_v4_gateway {ℓ} : {A : Type ℓ} → List ℕ → (ℕ → ℕ → ℕ → ℕ → A) → Option A
  unfolding parse_ipv4
  ip_v4_gateway env new = parse_ipv4 env new

  unfoldable pub ip_v6_gateway {ℓ} :
      {A : Type ℓ} → List ℕ → (ℕ → ℕ → ℕ → ℕ → ℕ → ℕ → ℕ → ℕ → A) → Option A
  unfolding parse_ipv6
  ip_v6_gateway env new = parse_ipv6 env new
