-- ===== src/Main/Links.antt =====
-- The interrupts of src/main.rs reach the handlers that the drivers are configured for.
use ra6m3_rtic.Prelude.{ℕ, List, ◌*◌, ◌≡◌, ◌≢◌, refl, arith}
use ra6m3_rtic.Main.Interrupts.{
  Event, edmac0_eint, gpt8_counter_overflow, gpt8_capture_compare_a, gpt8_capture_compare_b,
  gpt9_counter_overflow, gpt9_capture_compare_a, gpt9_capture_compare_b, Interrupt, IsrPrototype,
  overflow, compare_a, compare_b, Handler, handle_eth, handle_embassy, handle_mono, event_link,
  bound_task, embassy_irq, mono_irq,
}
use ra6m3_rtic.Main.Timers.{TimerConf, clock_hz, pclkd_hz, embassy_conf, mono_conf}
use ra6m3_rtic.Ethernet.Create.{ether_conf}

-- What an event means: channel 8 of GPT is the timer of embassy-time, channel 9 the monotonic's.
abbrev pub meaning : Event → Handler
meaning edmac0_eint = handle_eth
meaning gpt8_counter_overflow = handle_embassy overflow
meaning gpt8_capture_compare_a = handle_embassy compare_a
meaning gpt8_capture_compare_b = handle_embassy compare_b
meaning gpt9_counter_overflow = handle_mono overflow
meaning gpt9_capture_compare_a = handle_mono compare_a
meaning gpt9_capture_compare_b = handle_mono compare_b

-- The interrupt that the driver behind a handler was opened with.
abbrev pub timer_irq : TimerConf → IsrPrototype → Interrupt
timer_irq conf overflow = conf.cycle_end
timer_irq conf compare_a = conf.capture_a
timer_irq conf compare_b = conf.capture_b

unfoldable pub configured_irq : List ℕ → Handler → Interrupt
unfolding ether_conf embassy_conf mono_conf
configured_irq mac handle_eth = (ether_conf mac).irq
configured_irq mac (handle_embassy p) = timer_irq embassy_conf p
configured_irq mac (handle_mono p) = timer_irq mono_conf p

-- Every event is linked to a slot whose task calls the handler for that event, and the slot is the
-- one with which the driver behind the handler was opened, whatever the MAC address is.
pub event-reaches :
    (mac : List ℕ) (e : Event)
    → (bound_task (event_link e) ≡ meaning e) × (configured_irq mac (meaning e) ≡ event_link e)
unfolding bound_task event_link embassy_irq mono_irq configured_irq
event-reaches mac edmac0_eint = (refl, refl)
event-reaches mac gpt8_counter_overflow = (refl, refl)
event-reaches mac gpt8_capture_compare_a = (refl, refl)
event-reaches mac gpt8_capture_compare_b = (refl, refl)
event-reaches mac gpt9_counter_overflow = (refl, refl)
event-reaches mac gpt9_capture_compare_a = (refl, refl)
event-reaches mac gpt9_capture_compare_b = (refl, refl)

-- Both timers count at CLOCK_HZ, on different channels.
pub timers_at_clock_hz :
    (mono_conf.source_div * clock_hz ≡ pclkd_hz)
    × (embassy_conf.source_div * clock_hz ≡ pclkd_hz)
    × (mono_conf.channel ≢ embassy_conf.channel)
unfolding mono_conf embassy_conf
timers_at_clock_hz = (refl, refl, ground arith)
