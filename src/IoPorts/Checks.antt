-- ===== src/IoPorts/Checks.antt =====
-- The pin table of src/io_ports.rs is consistent, row by row and across rows.
use ra6m3_rtic.Prelude.{
  ℕ, zero, suc, ◌≤◌, ◌<◌, ◌≡◌, refl, Bool, true, ◌&&◌, ◌||◌, some, List, [], ◌∷◌, leb, ◌==◌, arith,
}
use ra6m3_rtic.Prelude.Lists.{get_elem?}
use ra6m3_rtic.IoPorts.Types.{Flag, PinCfg}
use ra6m3_rtic.IoPorts.Table.{
  bsp_pin_cfg, pin_number, flags_of, is_peripheral, is_peripheral_pin, is_analog, is_input,
  is_output, is_level, is_irq, count,
}

ascending : ℕ → List PinCfg → Bool
ascending low [] = true
ascending low (p ∷ ps) = leb low (pin_number p) && ascending (suc (pin_number p)) ps

all_rows : (PinCfg → Bool) → List PinCfg → Bool
all_rows test [] = true
all_rows test (p ∷ ps) = test p && all_rows test ps

all_rows_sound :
    (test : PinCfg → Bool) (ps : List PinCfg) (i : ℕ) (p : PinCfg)
    → all_rows test ps ≡ true
    → get_elem? ps i ≡ some p
    → test p ≡ true
unfolding all_rows
all_rows_sound test [] i p h e = cc
all_rows_sound test (q ∷ ps) zero p h e = ground arith
all_rows_sound test (q ∷ ps) (suc i) p h e = ground (arith, all_rows_sound test ps i p)

ascending_above :
    (low : ℕ) (ps : List PinCfg) (i : ℕ) (p : PinCfg)
    → ascending low ps ≡ true
    → get_elem? ps i ≡ some p
    → low ≤ pin_number p
unfolding ascending
ascending_above low [] i p h e = cc
ascending_above low (q ∷ ps) zero p h e = ground arith
ascending_above low (q ∷ ps) (suc i) p h e =
    ground (arith, ascending_above (suc (pin_number q)) ps i p)

ascending_sound :
    (low : ℕ) (ps : List PinCfg) (i j : ℕ) (p q : PinCfg)
    → ascending low ps ≡ true
    → i < j
    → get_elem? ps i ≡ some p
    → get_elem? ps j ≡ some q
    → pin_number p < pin_number q
unfolding ascending
ascending_sound low [] i j p q h lt ep eq = cc
ascending_sound low (r ∷ ps) zero zero p q h lt ep eq = absurd (omega arith)
ascending_sound low (r ∷ ps) zero (suc j) p q h lt ep eq =
    ground (arith, ascending_above (suc (pin_number r)) ps j q)
ascending_sound low (r ∷ ps) (suc i) zero p q h lt ep eq = absurd (omega arith)
ascending_sound low (r ∷ ps) (suc i) (suc j) p q h lt ep eq =
    ground (arith, ascending_sound (suc (pin_number r)) ps i j p q)

table_ascending : ascending 0 bsp_pin_cfg ≡ true
unfolding ascending bsp_pin_cfg
table_ascending = refl

-- A row that stands before another one has the smaller pin number, so that the table configures no
-- pin twice.
pub rows_ascending :
    (i j : ℕ) (p q : PinCfg)
    → i < j
    → get_elem? bsp_pin_cfg i ≡ some p
    → get_elem? bsp_pin_cfg j ≡ some q
    → pin_number p < pin_number q
rows_ascending i j p q lt ep eq = ascending_sound 0 bsp_pin_cfg i j p q table_ascending lt ep eq

-- A row is for one use: analog alone; or one peripheral, with the peripheral bit and no direction
-- of the port; or an output with one initial level; or an input that raises an interrupt.
abbrev pub is_coherent : PinCfg → Bool
is_coherent p =
    let n = λ (test : Flag → Bool). count test (flags_of p) in
    (n is_analog == 1
      && n is_peripheral_pin == 0
      && n is_peripheral == 0
      && n is_input == 0
      && n is_output == 0)
    || (n is_peripheral_pin == 1
        && n is_peripheral == 1
        && n is_analog == 0
        && n is_input == 0
        && n is_output == 0
        && n is_level == 0
        && n is_irq == 0)
    || (n is_output == 1
        && n is_level == 1
        && n is_input == 0
        && n is_peripheral_pin == 0
        && n is_peripheral == 0
        && n is_analog == 0
        && n is_irq == 0)
    || (n is_input == 1
        && n is_irq == 1
        && n is_output == 0
        && n is_level == 0
        && n is_peripheral_pin == 0
        && n is_peripheral == 0
        && n is_analog == 0)

table_coherent : all_rows is_coherent bsp_pin_cfg ≡ true
unfolding all_rows bsp_pin_cfg
table_coherent = refl

-- Every row of the table has one use: it is analog and nothing else, or for one peripheral with no
-- direction, or an output with one initial level, or an input that raises an interrupt.
pub rows_coherent : (i : ℕ) (p : PinCfg) → get_elem? bsp_pin_cfg i ≡ some p → is_coherent p ≡ true
rows_coherent i p e = all_rows_sound is_coherent bsp_pin_cfg i p table_coherent e
