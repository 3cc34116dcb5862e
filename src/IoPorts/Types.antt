-- ===== src/IoPorts/Types.antt =====
-- src/io_ports.rs: what a row of the pin table is made of. The constants are those of FSP; a
-- disjunction of them is the list of its parts.
use ra6m3_rtic.Prelude.{ℕ, List}

-- The `IOPORT_CFG_` and `IOPORT_PERIPHERAL_` constants that the table names.
pub data Flag : Type 0 where
  analog_enable drive_high drive_mid irq_enable nmos_enable peripheral_pin direction_input
        direction_output output_high output_low pullup_enable :
      Flag
  clkout_comp_rtc debug ether_rmii gpt1 iic lcd_graphics qspi sci1_3_5_7_9 spi trace usb_fs usb_hs :
      Flag

-- `ioport_pin_cfg_t`: port, pin, `pin_cfg`
pub data PinCfg : Type 0 where
  cfg : ℕ → ℕ → List Flag → PinCfg
