-- ===== src/Main/Line.antt =====
-- src/log_ra6m3_setup.rs: the text of a log line, `RttLogger::log`.
use mathlib.Core.List.{flatten}
use ra6m3_rtic.Prelude.{ℕ, ◌-◌, List, [], ◌∷◌, ◌++◌}
use ra6m3_rtic.Prelude.Lists.{length, replicate}
use ra6m3_rtic.Conf.Print.{print}
use ra6m3_rtic.Main.Uptime.{stamp}

-- `{:>5}` with blanks, `{:03}` with zeros: `fill` up to the width, in front.
abbrev pub pad_left : ℕ → ℕ → List ℕ → List ℕ
pad_left fill width t = replicate (width - length t) fill ++ t

-- `{:<5}`
abbrev pub pad_right : ℕ → ℕ → List ℕ → List ℕ
pad_right fill width t = t ++ replicate (width - length t) fill

-- The line for an uptime in microseconds; the other three are the texts of the level, the target
-- and the arguments.
unfoldable pub log_line : ℕ → List ℕ → List ℕ → List ℕ → List ℕ
unfolding stamp print flatten
log_line us level target args =
    let (secs, millis) = stamp us in
    flatten (
      (b'[' ∷ [])
      ∷ pad_left b' ' 5 (print 10 secs)
      ∷ (b'.' ∷ [])
      ∷ pad_left b'0' 3 (print 10 millis)
      ∷ (b']' ∷ b' ' ∷ [])
      ∷ pad_right b' ' 5 level
      ∷ (b' ' ∷ b'[' ∷ [])
      ∷ target
      ∷ (b']' ∷ b' ' ∷ [])
      ∷ args
      ∷ (b'\n' ∷ [])
      ∷ [])
