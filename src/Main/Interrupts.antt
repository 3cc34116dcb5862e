-- ===== src/Main/Interrupts.antt =====
-- src/main.rs: the table of `event_link_select!` and the hardware tasks; src/mono.rs and
-- src/embassy_time_driver.rs: the interrupts with which the two timers are configured.

-- The events of the table.
pub data Event : Type 0 where
  edmac0_eint : Event
  gpt8_counter_overflow gpt8_capture_compare_a gpt8_capture_compare_b : Event
  gpt9_counter_overflow gpt9_capture_compare_a gpt9_capture_compare_b : Event

-- `IsrPrototype`
pub data IsrPrototype : Type 0 where
  overflow compare_a compare_b : IsrPrototype

-- The slots of the interrupt controller that the code names.
pub data Interrupt : Type 0 where
  iel0 iel1 iel2 iel3 iel4 iel5 iel6 : Interrupt

-- What a hardware task calls: `eth().handle_isr()` on the device, or the `handle_isr` of one of the
-- two timers.
pub data Handler : Type 0 where
  handle_eth : Handler
  handle_embassy handle_mono : IsrPrototype → Handler

-- `event_link_select!`: the slot IELn of an event.
unfoldable pub event_link : Event → Interrupt
event_link edmac0_eint = iel0
event_link gpt8_counter_overflow = iel1
event_link gpt8_capture_compare_a = iel2
event_link gpt8_capture_compare_b = iel3
event_link gpt9_counter_overflow = iel4
event_link gpt9_capture_compare_a = iel5
event_link gpt9_capture_compare_b = iel6

-- `binds = IELn`: the task of a slot, by what it calls.
unfoldable pub bound_task : Interrupt → Handler
bound_task iel0 = handle_eth
bound_task iel1 = handle_embassy overflow
bound_task iel2 = handle_embassy compare_a
bound_task iel3 = handle_embassy compare_b
bound_task iel4 = handle_mono overflow
bound_task iel5 = handle_mono compare_a
bound_task iel6 = handle_mono compare_b

-- CYCLE_END_IRQ, CAPTURE_A_IRQ and CAPTURE_B_IRQ of src/embassy_time_driver.rs.
unfoldable pub embassy_irq : IsrPrototype → Interrupt
embassy_irq overflow = iel1
embassy_irq compare_a = iel2
embassy_irq compare_b = iel3

-- The same of src/mono.rs.
unfoldable pub mono_irq : IsrPrototype → Interrupt
mono_irq overflow = iel4
mono_irq compare_a = iel5
mono_irq compare_b = iel6

-- `irq(Interrupt::IEL0)` in `create_dev` of src/net_ra6m3.rs.
abbrev pub eth_irq : Interrupt
eth_irq = iel0
