-- ===== src/Tests/Text.antt =====
-- A string of at most 512 bytes, as src/mqtt.rs uses it.
use ra6m3_rtic.Mqtt.Echo.{Heapless}
use ra6m3_rtic.Prelude.{
  ◌<◌, ◌+◌, ◌++◌, leb, ℕ, ◌≤◌, ◌≡◌, refl, List, [], Result, ok, err, if◌then◌else◌, arith,
}
use ra6m3_rtic.Prelude.Lists.{length}

-- `heapless::String<512>` as a list of bytes.
abbrev pub push : List ℕ → List ℕ → Result (Unit {0}) (Unit {0}) × List ℕ
push t s = if leb (length s + length t) 512 then (ok tt, s ++ t) else (err tt, s)

pub push-fits : (t s : List ℕ) → length s + length t ≤ 512 → (push t s).1 ≡ s ++ t
push-fits t s h = ground arith

pub push-full : (t s : List ℕ) → 512 < length s + length t → (push t s).1 ≡ s
push-full t s h = ground arith

abbrev pub bytes_512 : Heapless
bytes_512 = record {
  Str = List ℕ;
  new = [];
  bytes = λ s. s;
  push_str = push;
  capacity = λ s. 512;
  len = length;
  bytes-new = refl;
  capacity_lem = λ s. refl;
  len_lem = λ s. refl;
  push_str_fits = push-fits;
  push_str_full = push-full;
}
