-- ===== src/Main/Panics.antt =====
-- src/log_ra6m3_setup.rs: the panic handler, on the panics of the start-up.
use ra6m3_rtic.Prelude.{◌≡◌, refl, Bool, true, false, Option, none, some, if◌then◌else◌}
use ra6m3_rtic.Main.Boot.{
  Board, Boot, Ran, returned, panicked, Init, Task, pure, expect, unwrap, mono_now, uptime, info,
  trace, ◌>>=◌, start_mono, start_embassy, spawn, is_spawned,
}
use ra6m3_rtic.Main.Ends.{info-Ends}

-- `panic`: the log line. The loops behind it wait, and halt the processor for ever.
unfoldable pub panic : {H : Type 0} → Board → Init H (Unit {0})
unfolding info
panic board = info board

-- STARTED says only of a running clock that it runs.
abbrev pub IsLoggable : {H : Type 0} → Boot H → Type 0
IsLoggable b = b.started ≡ true → b.initialized ≡ true

abbrev pub Stays : {H A : Type 0} → Ran H A → Type 0
Stays (returned a b) = IsLoggable b
Stays (panicked b) = IsLoggable b

-- Code that leaves the log in order, where it returns and where it panics.
pub record Keeps {H A : Type 0} (m : Init H A) : Type 0 where
  pub stays : (b : Boot H) → IsLoggable b → Stays (m b)

module _ {H : Type 0} where
  Stays-bind :
      {A B : Type 0} (f : A → Init H B) (r : Ran H A)
      → Stays r
      → ((a : A) → Keeps (f a))
      → Stays (elim r [ panicked b' ↦ panicked b' | returned a b' ↦ f a b' ])
  Stays-bind f (returned a b) h k = (k a).stays b h
  Stays-bind f (panicked b) h k = h

  pub Keeps-bind :
      {A B : Type 0} {f : A → Init H B} {m : Init H A}
      → Keeps m
      → ((a : A) → Keeps (f a))
      → Keeps (m >>= f)
  Keeps-bind {f} {m} k l = record { stays = λ b h. Stays-bind f (m b) (k.stays b h) l }

  pub Keeps-pure : {A : Type 0} {a : A} → Keeps (pure {H = H} a)
  Keeps-pure = record { stays = λ b h. h }

  Keeps-if :
      {A : Type 0} (t : Bool) {m n : Init H A} → Keeps m → Keeps n → Keeps (if t then m else n)
  Keeps-if true k l = k
  Keeps-if false k l = l

  Stays-if :
      {A : Type 0} (t : Bool) (r s : Ran H A) → Stays r → Stays s → Stays (if t then r else s)
  Stays-if true r s h k = h
  Stays-if false r s h k = k

  Stays-expect : (t : Bool) (b : Boot H) → IsLoggable b → Stays (expect t b)
  Stays-expect true b h = h
  Stays-expect false b h = h

  pub Keeps-expect : (t : Bool) → Keeps (expect {H = H} t)
  Keeps-expect t = record { stays = Stays-expect t }

  Stays-unwrap : {A : Type 0} (o : Option A) (b : Boot H) → IsLoggable b → Stays (unwrap o b)
  Stays-unwrap none b h = h
  Stays-unwrap (some a) b h = h

  pub Keeps-unwrap : {A : Type 0} (o : Option A) → Keeps (unwrap {H = H} o)
  Keeps-unwrap o = record { stays = Stays-unwrap o }

  pub spawn-Keeps : (t : Task H) → Keeps (spawn t)
  unfolding spawn
  spawn-Keeps t = record { stays = λ b h. Stays-if (is_spawned t b.spawned) _ _ h h }

  module _ (board : Board) where
    pub mono_now-Keeps : Keeps (mono_now board {H = H})
    unfolding mono_now
    mono_now-Keeps = record { stays = λ b h. Stays-if b.initialized _ _ h h }

    uptime-Keeps : Keeps (uptime board {H = H})
    unfolding uptime
    uptime-Keeps = record {
      stays = λ b h.
          Stays-if b.started _ _
            (Stays-bind _ (mono_now board b) (mono_now-Keeps.stays b h) λ n. Keeps-pure) h;
    }

    pub info-Keeps : Keeps (info board {H = H})
    unfolding info
    info-Keeps = Keeps-bind uptime-Keeps λ us. record { stays = λ b h. h }

    pub trace-Keeps : Keeps (trace board {H = H})
    unfolding trace
    trace-Keeps = Keeps-if board.traces info-Keeps Keeps-pure

    -- `start_mono` sets STARTED once the clock runs.
    pub start_mono-Keeps : Keeps (start_mono board {H = H})
    unfolding start_mono
    start_mono-Keeps =
        Keeps-bind (Keeps-expect board.mono_opens)
          λ _. Keeps-bind (Keeps-expect board.mono_starts) λ _. record { stays = λ b h s. refl }

    pub start_embassy-Keeps : Keeps (start_embassy board {H = H})
    unfolding start_embassy
    start_embassy-Keeps =
        Keeps-bind (Keeps-expect board.embassy_opens)
          λ _. Keeps-bind (Keeps-expect board.embassy_starts) λ _. record { stays = λ b h. h }

    -- Where the log is in order the handler prints its line.
    pub panic-Ends : (b : Boot H) → IsLoggable b → (b' : Boot H) × (panic board b ≡ returned tt b')
    unfolding panic
    panic-Ends b h = let (_, b', e, _) = info-Ends board b h in (b', e)
