-- ===== src/IoPorts/Low.antt =====
-- src/io_ports.rs: the rows of ports 0 to 3.
use ra6m3_rtic.Prelude.{List, [], ◌∷◌}
use ra6m3_rtic.IoPorts.Types.{
  PinCfg, cfg, analog_enable, clkout_comp_rtc, debug, direction_input, direction_output, drive_high,
  irq_enable, lcd_graphics, output_high, output_low, peripheral_pin, pullup_enable, qspi, spi,
  trace,
}

-- Port 0.
abbrev pub port0 : List PinCfg
port0 =
    cfg 0 0 (direction_output ∷ output_low ∷ [])
    ∷ cfg 0 1 (analog_enable ∷ [])
    ∷ cfg 0 2 (analog_enable ∷ [])
    ∷ cfg 0 4 (irq_enable ∷ direction_input ∷ [])
    ∷ cfg 0 8 (irq_enable ∷ direction_input ∷ [])
    ∷ cfg 0 9 (irq_enable ∷ direction_input ∷ [])
    ∷ cfg 0 14 (analog_enable ∷ [])
    ∷ []

-- Port 1.
abbrev pub port1 : List PinCfg
port1 =
    cfg 1 0 (direction_output ∷ output_low ∷ [])
    ∷ cfg 1 1 (drive_high ∷ peripheral_pin ∷ lcd_graphics ∷ [])
    ∷ cfg 1 2 (drive_high ∷ peripheral_pin ∷ lcd_graphics ∷ [])
    ∷ cfg 1 3 (drive_high ∷ peripheral_pin ∷ lcd_graphics ∷ [])
    ∷ cfg 1 4 (drive_high ∷ peripheral_pin ∷ lcd_graphics ∷ [])
    ∷ cfg 1 6 (drive_high ∷ peripheral_pin ∷ lcd_graphics ∷ [])
    ∷ cfg 1 7 (drive_high ∷ peripheral_pin ∷ lcd_graphics ∷ [])
    ∷ cfg 1 8 (peripheral_pin ∷ debug ∷ [])
    ∷ cfg 1 9 (peripheral_pin ∷ debug ∷ [])
    ∷ cfg 1 10 (peripheral_pin ∷ debug ∷ [])
    ∷ cfg 1 11 (drive_high ∷ peripheral_pin ∷ lcd_graphics ∷ [])
    ∷ cfg 1 12 (drive_high ∷ peripheral_pin ∷ lcd_graphics ∷ [])
    ∷ cfg 1 13 (drive_high ∷ peripheral_pin ∷ lcd_graphics ∷ [])
    ∷ cfg 1 14 (drive_high ∷ peripheral_pin ∷ lcd_graphics ∷ [])
    ∷ cfg 1 15 (drive_high ∷ peripheral_pin ∷ lcd_graphics ∷ [])
    ∷ []

-- Port 2.
abbrev pub port2 : List PinCfg
port2 =
    cfg 2 2 (peripheral_pin ∷ spi ∷ [])
    ∷ cfg 2 3 (peripheral_pin ∷ spi ∷ [])
    ∷ cfg 2 4 (peripheral_pin ∷ spi ∷ [])
    ∷ cfg 2 5 (peripheral_pin ∷ spi ∷ [])
    ∷ cfg 2 6 (irq_enable ∷ direction_input ∷ pullup_enable ∷ [])
    ∷ cfg 2 8 (drive_high ∷ peripheral_pin ∷ trace ∷ [])
    ∷ cfg 2 9 (drive_high ∷ peripheral_pin ∷ trace ∷ [])
    ∷ cfg 2 10 (drive_high ∷ peripheral_pin ∷ trace ∷ [])
    ∷ cfg 2 11 (drive_high ∷ peripheral_pin ∷ trace ∷ [])
    ∷ cfg 2 12 (peripheral_pin ∷ clkout_comp_rtc ∷ [])
    ∷ cfg 2 13 (peripheral_pin ∷ clkout_comp_rtc ∷ [])
    ∷ cfg 2 14 (drive_high ∷ peripheral_pin ∷ trace ∷ [])
    ∷ []

-- Port 3.
abbrev pub port3 : List PinCfg
port3 =
    cfg 3 0 (peripheral_pin ∷ debug ∷ [])
    ∷ cfg 3 1 (drive_high ∷ peripheral_pin ∷ lcd_graphics ∷ [])
    ∷ cfg 3 2 (drive_high ∷ peripheral_pin ∷ lcd_graphics ∷ [])
    ∷ cfg 3 3 (drive_high ∷ peripheral_pin ∷ lcd_graphics ∷ [])
    ∷ cfg 3 4 (direction_output ∷ output_high ∷ [])
    ∷ cfg 3 5 (drive_high ∷ peripheral_pin ∷ qspi ∷ [])
    ∷ cfg 3 6 (drive_high ∷ peripheral_pin ∷ qspi ∷ [])
    ∷ cfg 3 7 (drive_high ∷ peripheral_pin ∷ qspi ∷ [])
    ∷ cfg 3 8 (drive_high ∷ peripheral_pin ∷ qspi ∷ [])
    ∷ cfg 3 9 (drive_high ∷ peripheral_pin ∷ qspi ∷ [])
    ∷ cfg 3 10 (drive_high ∷ peripheral_pin ∷ qspi ∷ [])
    ∷ []
