-- ===== src/Main/Timers.antt =====
-- src/mono.rs and src/embassy_time_driver.rs: how the two timers are configured.
use ra6m3_rtic.Prelude.{ℕ}
use ra6m3_rtic.Main.Interrupts.{Interrupt, overflow, compare_a, compare_b, embassy_irq, mono_irq}

-- `e_timer_mode`, as far as the code names it.
pub data TimerMode : Type 0 where
  periodic : TimerMode

-- `gpt_source_t`, likewise.
pub data GptSource : Type 0 where
  no_source : GptSource

-- What the code sets of FSP's `TimerConf` with its `GptExtendedConfig`; the other fields are the
-- defaults of FSP. `source_div` is the divisor, and `GPT328::N` and `GPT329::N` are 8 and 9.
pub record TimerConf : Type 0 where
  pub channel : ℕ
  pub mode : TimerMode
  pub period_counts : ℕ
  pub source_div : ℕ
  pub duty_cycle_counts : ℕ
  pub cycle_end : Interrupt
  pub capture_a : Interrupt
  pub capture_b : Interrupt
  pub count_up_source : GptSource
  pub count_down_source : GptSource
  pub compare_match_status : ℕ

-- The `cfg` of `start` in src/mono.rs.
unfoldable pub mono_conf : TimerConf
unfolding mono_irq
mono_conf = record {
  channel = 9;
  mode = periodic;
  period_counts = 0xFFFF_FFFF;
  source_div = 4;
  duty_cycle_counts = 0;
  cycle_end = mono_irq overflow;
  capture_a = mono_irq compare_a;
  capture_b = mono_irq compare_b;
  count_up_source = no_source;
  count_down_source = no_source;
  compare_match_status = 0b11;
}

-- The `cfg` of `start` in src/embassy_time_driver.rs.
unfoldable pub embassy_conf : TimerConf
unfolding embassy_irq
embassy_conf = record {
  channel = 8;
  mode = periodic;
  period_counts = 0xFFFF_FFFF;
  source_div = 4;
  duty_cycle_counts = 0;
  cycle_end = embassy_irq overflow;
  capture_a = embassy_irq compare_a;
  capture_b = embassy_irq compare_b;
  count_up_source = no_source;
  count_down_source = no_source;
  compare_match_status = 0b11;
}

-- CLOCK_HZ of src/conf.rs, and the clock of the timers, PCLKD.
abbrev pub clock_hz : ℕ
clock_hz = 30_000_000

abbrev pub pclkd_hz : ℕ
pclkd_hz = 120_000_000
