-- ===== src/IoPorts/Middle.antt =====
-- src/io_ports.rs: the rows of ports 4 and 5.
use ra6m3_rtic.Prelude.{List, [], ◌∷◌}
use ra6m3_rtic.IoPorts.Types.{
  PinCfg, cfg, analog_enable, direction_input, direction_output, drive_high, drive_mid, ether_rmii,
  gpt1, iic, irq_enable, nmos_enable, output_high, output_low, peripheral_pin, sci1_3_5_7_9, spi,
  usb_fs,
}

-- Port 4.
abbrev pub port4 : List PinCfg
port4 =
    cfg 4 0 (direction_output ∷ output_low ∷ [])
    ∷ cfg 4 1 (drive_high ∷ peripheral_pin ∷ ether_rmii ∷ [])
    ∷ cfg 4 2 (drive_high ∷ peripheral_pin ∷ ether_rmii ∷ [])
    ∷ cfg 4 3 (direction_output ∷ output_low ∷ [])
    ∷ cfg 4 4 (direction_output ∷ output_high ∷ [])
    ∷ cfg 4 5 (drive_high ∷ peripheral_pin ∷ ether_rmii ∷ [])
    ∷ cfg 4 6 (drive_high ∷ peripheral_pin ∷ ether_rmii ∷ [])
    ∷ cfg 4 7 (peripheral_pin ∷ usb_fs ∷ [])
    ∷ cfg 4 8 (nmos_enable ∷ peripheral_pin ∷ sci1_3_5_7_9 ∷ [])
    ∷ cfg 4 9 (nmos_enable ∷ peripheral_pin ∷ sci1_3_5_7_9 ∷ [])
    ∷ cfg 4 10 (peripheral_pin ∷ spi ∷ [])
    ∷ cfg 4 11 (peripheral_pin ∷ spi ∷ [])
    ∷ cfg 4 12 (peripheral_pin ∷ spi ∷ [])
    ∷ cfg 4 13 (direction_output ∷ output_low ∷ [])
    ∷ cfg 4 14 (peripheral_pin ∷ spi ∷ [])
    ∷ cfg 4 15 (peripheral_pin ∷ gpt1 ∷ [])
    ∷ []

-- Port 5.
abbrev pub port5 : List PinCfg
port5 =
    cfg 5 0 (peripheral_pin ∷ usb_fs ∷ [])
    ∷ cfg 5 1 (peripheral_pin ∷ usb_fs ∷ [])
    ∷ cfg 5 3 (direction_output ∷ output_low ∷ [])
    ∷ cfg 5 4 (direction_output ∷ output_low ∷ [])
    ∷ cfg 5 5 (irq_enable ∷ direction_input ∷ [])
    ∷ cfg 5 6 (irq_enable ∷ direction_input ∷ [])
    ∷ cfg 5 7 (analog_enable ∷ [])
    ∷ cfg 5 8 (analog_enable ∷ [])
    ∷ cfg 5 11 (drive_mid ∷ peripheral_pin ∷ iic ∷ [])
    ∷ cfg 5 12 (drive_mid ∷ peripheral_pin ∷ iic ∷ [])
    ∷ []
