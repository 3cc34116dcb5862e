-- ===== src/Tests/Lines.antt =====
-- A line of the log.
use ra6m3_rtic.Prelude.{ℕ, ◌≡◌, refl, some, List, [], ◌∷◌}
use ra6m3_rtic.Main.Line.{log_line}
use ra6m3_rtic.Main.Columns.{read_stamp, read_stamp-log_line}

abbrev level : List ℕ
level = b'I' ∷ b'N' ∷ b'F' ∷ b'O' ∷ []

abbrev target : List ℕ
target = b'n' ∷ b'e' ∷ b't' ∷ []

abbrev args : List ℕ
args = b'u' ∷ b'p' ∷ []

-- "[    3.045] INFO  [net] up"
log_line_at_3045 :
    log_line 3_045_678 level target args
    ≡ b'[' ∷ b' ' ∷ b' ' ∷ b' ' ∷ b' ' ∷ b'3' ∷ b'.' ∷ b'0' ∷ b'4' ∷ b'5' ∷ b']' ∷ b' ' ∷ b'I'
      ∷ b'N' ∷ b'F' ∷ b'O' ∷ b' ' ∷ b' ' ∷ b'[' ∷ b'n' ∷ b'e' ∷ b't' ∷ b']' ∷ b' ' ∷ b'u' ∷ b'p'
      ∷ b'\n' ∷ []
unfolding log_line
log_line_at_3045 = refl

read_stamp-log_line_example : read_stamp (log_line 3_045_678 level target args) ≡ some 3_045
read_stamp-log_line_example = read_stamp-log_line 3_045_678 level target args
