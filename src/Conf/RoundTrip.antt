-- ===== src/Conf/RoundTrip.antt =====
-- The addresses of src/conf.rs are read as they were written.
use ra6m3_rtic.Prelude.{
  ℕ, ◌<◌, ◌^◌, ◌≡◌, ◌≢◌, ◌∙◌, refl, ap, ◌⊎◌, inl, inr, some, List, [], ◌∷◌, ◌++◌, map, arith,
}
use ra6m3_rtic.Conf.Radix.{from_str_radix, parse_u8, parse_u16}
use ra6m3_rtic.Conf.Address.{
  All, Konst, in_front, collect, array_4, array_6, array_8, parse_ipv4, parse_ipv6, with_mask,
  split_ip, mac, first_part, second_part, ip_v4, ip_v6, netmask,
}
use ra6m3_rtic.Conf.Print.{print, joined}
use ra6m3_rtic.Conf.Numbers.{
  IsRadix, IsRadix-10, IsRadix-16, IsPrinted, print-AllPrinted, from_str_radix-print,
}

-- None of the separators is a letter or a digit.
abbrev pub IsSeparator : ℕ → Type 0
IsSeparator sep = (sep < b'0') ⊎ (sep ≡ b':')

All-ne : (sep : ℕ) (t : List ℕ) → IsSeparator sep → All IsPrinted t → All (λ c. c ≢ sep) t
All-ne sep [] h p = tt
All-ne sep (c ∷ cs) h (pc, pcs) = (λ e. ground arith, All-ne sep cs h pcs)

All-append : (P : ℕ → Type 0) (a b : List ℕ) → All P a → All P b → All P (a ++ b)
All-append P [] b h k = k
All-append P (c ∷ cs) b (hc, hcs) k = (hc, All-append P cs b hcs k)

module _ (konst : Konst) (limit radix sep : ℕ) (is_radix : IsRadix radix)
    (is_sep : IsSeparator sep) where
  print-ne : (n other : ℕ) → IsSeparator other → All (λ c. c ≢ other) (print radix n)
  print-ne n other h = All-ne other (print radix n) h (print-AllPrinted limit radix is_radix n)

  -- A printed list has only its own separator in it.
  joined-ne :
      (other : ℕ) (ns : List ℕ)
      → IsSeparator other
      → sep ≢ other
      → All (λ c. c ≢ other) (joined radix sep ns)
  joined-ne other [] h ne = tt
  joined-ne other (n ∷ []) h ne = print-ne n other h
  joined-ne other (n ∷ m ∷ ns) h ne =
      All-append (λ c. c ≢ other) (print radix n) (sep ∷ joined radix sep (m ∷ ns))
        (print-ne n other h) (ne, joined-ne other (m ∷ ns) h ne)

  split-joined :
      (n : ℕ) (ns : List ℕ)
      → konst.split (joined radix sep (n ∷ ns)) sep ≡ map (print radix) (n ∷ ns)
  split-joined n [] = konst.split_last (print radix n) sep (print-ne n sep is_sep)
  split-joined n (m ∷ ns) =
      konst.split_first (print radix n) (joined radix sep (m ∷ ns)) sep (print-ne n sep is_sep)
      ∙ ap (λ ts. print radix n ∷ ts) (split-joined m ns)

  collect-print :
      (ns : List ℕ)
      → All (λ n. n < limit) ns
      → collect (from_str_radix limit radix) (map (print radix) ns) ≡ some ns
  unfolding collect
  collect-print [] h = refl
  collect-print (n ∷ ns) (hn, hns) =
      rw (from_str_radix-print limit radix is_radix n hn, collect)
        (ap (in_front n) (collect-print ns hns))

  pub collect-joined :
      (n : ℕ) (ns : List ℕ)
      → All (λ n. n < limit) (n ∷ ns)
      → collect (from_str_radix limit radix) (konst.split (joined radix sep (n ∷ ns)) sep)
        ≡ some (n ∷ ns)
  collect-joined n ns h =
      ap (collect (from_str_radix limit radix)) (split-joined n ns) ∙ collect-print (n ∷ ns) h

  -- An address with its mask behind a slash.
  split_once-joined :
      (ns mask : List ℕ)
      → sep ≢ b'/'
      → konst.split_once (joined radix sep ns ++ b'/' ∷ mask) b'/'
        ≡ some (joined radix sep ns, mask)
  split_once-joined ns mask ne =
      konst.split_once_first (joined radix sep ns) mask b'/'
        (joined-ne b'/' ns (inl (omega arith)) ne)

module _ (konst : Konst) where
  split_ip-joined :
      (radix sep : ℕ) (is_radix : IsRadix radix) (is_sep : IsSeparator sep) (ns : List ℕ) (m : ℕ)
      → sep ≢ b'/'
      → m < 2 ^ 8
      → split_ip konst (joined radix sep ns ++ b'/' ∷ print 10 m) ≡ some (joined radix sep ns, m)
  unfolding split_ip parse_u8
  split_ip-joined radix sep is_radix is_sep ns m ne hm =
      ap (with_mask konst)
        (split_once-joined konst (2 ^ 8) radix sep is_radix is_sep ns (print 10 m) ne)
      ∙ rw (from_str_radix-print (2 ^ 8) 10 IsRadix-10 m hm, with_mask)

  -- IP_V4 and its mask are exactly the numbers that were printed in "a.b.c.d/m", in decimal: no such
  -- text makes a constant panic, as long as the numbers fit eight bits.
  pub ip_v4-print :
      {A : Type 0} (v4 : ℕ → ℕ → ℕ → ℕ → A) (a b c d m : ℕ)
      → All (λ n. n < 2 ^ 8) (a ∷ b ∷ c ∷ d ∷ [])
      → m < 2 ^ 8
      → let env = joined 10 b'.' (a ∷ b ∷ c ∷ d ∷ []) ++ b'/' ∷ print 10 m in
        (ip_v4 konst env v4 ≡ some (v4 a b c d)) × (netmask konst env ≡ some m)
  unfolding ip_v4 netmask parse_ipv4 parse_u8
  ip_v4-print v4 a b c d m hs hm =
      let ns = a ∷ b ∷ c ∷ d ∷ [] in
      let halves =
        split_ip-joined 10 b'.' IsRadix-10 (inl (omega arith)) ns m (λ e. omega arith) hm in
      (
        ap (first_part konst (λ ip. parse_ipv4 konst ip v4)) halves
            ∙ ap (array_4 v4) (
                collect-joined konst (2 ^ 8) 10 b'.' IsRadix-10 (inl (omega arith)) a
                  (b ∷ c ∷ d ∷ []) hs),
        ap (second_part konst) halves,
      )

  -- IP_V6 and its mask are exactly the numbers that were printed in "a:b:c:d:e:f:g:h/m", the groups
  -- in hexadecimal and the mask in decimal: no such text makes a constant panic, as long as the
  -- groups fit sixteen bits and the mask fits eight.
  pub ip_v6-print :
      {A : Type 0} (v6 : ℕ → ℕ → ℕ → ℕ → ℕ → ℕ → ℕ → ℕ → A) (a b c d e f g h m : ℕ)
      → All (λ n. n < 2 ^ 16) (a ∷ b ∷ c ∷ d ∷ e ∷ f ∷ g ∷ h ∷ [])
      → m < 2 ^ 8
      → let env = joined 16 b':' (a ∷ b ∷ c ∷ d ∷ e ∷ f ∷ g ∷ h ∷ []) ++ b'/' ∷ print 10 m in
        (ip_v6 konst env v6 ≡ some (v6 a b c d e f g h)) × (netmask konst env ≡ some m)
  unfolding ip_v6 netmask parse_ipv6 parse_u16
  ip_v6-print v6 a b c d e f g h m hs hm =
      let ns = a ∷ b ∷ c ∷ d ∷ e ∷ f ∷ g ∷ h ∷ [] in
      let halves = split_ip-joined 16 b':' IsRadix-16 (inr refl) ns m (λ e. omega arith) hm in
      (
        ap (first_part konst (λ ip. parse_ipv6 konst ip v6)) halves
            ∙ ap (array_8 v6) (
                collect-joined konst (2 ^ 16) 16 b':' IsRadix-16 (inr refl) a
                  (b ∷ c ∷ d ∷ e ∷ f ∷ g ∷ h ∷ []) hs),
        ap (second_part konst) halves,
      )

  -- And so is the MAC address.
  pub mac-print :
      (a b c d e f : ℕ)
      → All (λ n. n < 2 ^ 8) (a ∷ b ∷ c ∷ d ∷ e ∷ f ∷ [])
      → mac konst (joined 16 b':' (a ∷ b ∷ c ∷ d ∷ e ∷ f ∷ [])) ≡ some (a ∷ b ∷ c ∷ d ∷ e ∷ f ∷ [])
  unfolding mac parse_u8
  mac-print a b c d e f hs =
      ap array_6
        (collect-joined konst (2 ^ 8) 16 b':' IsRadix-16 (inr refl) a (b ∷ c ∷ d ∷ e ∷ f ∷ []) hs)
