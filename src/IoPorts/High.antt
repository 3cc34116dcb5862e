-- ===== src/IoPorts/High.antt =====
-- src/io_ports.rs: the rows of ports 6 to 11.
use ra6m3_rtic.Prelude.{List, [], ◌∷◌}
use ra6m3_rtic.IoPorts.Types.{
  PinCfg, cfg, direction_input, direction_output, drive_high, ether_rmii, gpt1, irq_enable,
  lcd_graphics, output_low, peripheral_pin, sci1_3_5_7_9, usb_hs,
}

-- Port 6.
abbrev pub port6 : List PinCfg
port6 =
    cfg 6 0 (direction_output ∷ output_low ∷ [])
    ∷ cfg 6 1 (drive_high ∷ peripheral_pin ∷ lcd_graphics ∷ [])
    ∷ cfg 6 2 (peripheral_pin ∷ gpt1 ∷ [])
    ∷ cfg 6 3 (peripheral_pin ∷ gpt1 ∷ [])
    ∷ cfg 6 8 (drive_high ∷ peripheral_pin ∷ lcd_graphics ∷ [])
    ∷ cfg 6 9 (drive_high ∷ peripheral_pin ∷ lcd_graphics ∷ [])
    ∷ cfg 6 10 (peripheral_pin ∷ gpt1 ∷ [])
    ∷ cfg 6 11 (direction_output ∷ output_low ∷ [])
    ∷ cfg 6 13 (peripheral_pin ∷ sci1_3_5_7_9 ∷ [])
    ∷ cfg 6 14 (peripheral_pin ∷ sci1_3_5_7_9 ∷ [])
    ∷ []

-- Port 7.
abbrev pub port7 : List PinCfg
port7 =
    cfg 7 0 (drive_high ∷ peripheral_pin ∷ ether_rmii ∷ [])
    ∷ cfg 7 1 (drive_high ∷ peripheral_pin ∷ ether_rmii ∷ [])
    ∷ cfg 7 2 (drive_high ∷ peripheral_pin ∷ ether_rmii ∷ [])
    ∷ cfg 7 3 (drive_high ∷ peripheral_pin ∷ ether_rmii ∷ [])
    ∷ cfg 7 4 (drive_high ∷ peripheral_pin ∷ ether_rmii ∷ [])
    ∷ cfg 7 5 (drive_high ∷ peripheral_pin ∷ ether_rmii ∷ [])
    ∷ cfg 7 6 (irq_enable ∷ direction_input ∷ [])
    ∷ cfg 7 7 (peripheral_pin ∷ usb_hs ∷ [])
    ∷ cfg 7 8 (irq_enable ∷ direction_input ∷ [])
    ∷ []

-- Port 8.
abbrev pub port8 : List PinCfg
port8 =
    cfg 8 0 (direction_output ∷ output_low ∷ [])
    ∷ cfg 8 1 (direction_output ∷ output_low ∷ [])
    ∷ cfg 8 2 (direction_output ∷ output_low ∷ [])
    ∷ cfg 8 3 (direction_output ∷ output_low ∷ [])
    ∷ cfg 8 4 (direction_output ∷ output_low ∷ [])
    ∷ cfg 8 5 (direction_output ∷ output_low ∷ [])
    ∷ []

-- Port 9.
abbrev pub port9 : List PinCfg
port9 =
    cfg 9 0 (direction_output ∷ output_low ∷ [])
    ∷ cfg 9 7 (direction_output ∷ output_low ∷ [])
    ∷ cfg 9 8 (direction_output ∷ output_low ∷ [])
    ∷ []

-- Port 11.
abbrev pub port11 : List PinCfg
port11 = cfg 11 0 (peripheral_pin ∷ usb_hs ∷ []) ∷ cfg 11 1 (peripheral_pin ∷ usb_hs ∷ []) ∷ []
