-- ===== src/IoPorts/Table.antt =====
-- src/io_ports.rs: the whole table, and how a row is read.
use ra6m3_rtic.Prelude.{ℕ, ◌+◌, ◌*◌, Bool, true, false, List, [], ◌∷◌, ◌++◌}
use ra6m3_rtic.IoPorts.Types.{
  Flag, PinCfg, cfg, analog_enable, direction_input, direction_output, irq_enable, output_high,
  output_low, peripheral_pin, clkout_comp_rtc, debug, ether_rmii, gpt1, iic, lcd_graphics, qspi,
  sci1_3_5_7_9, spi, trace, usb_fs, usb_hs,
}
use ra6m3_rtic.IoPorts.Low.{port0, port1, port2, port3}
use ra6m3_rtic.IoPorts.Middle.{port4, port5}
use ra6m3_rtic.IoPorts.High.{port6, port7, port8, port9, port11}

-- BSP_PIN_CFG
unfoldable pub bsp_pin_cfg : List PinCfg
bsp_pin_cfg =
    port0
    ++ (port1
        ++ (port2
            ++ (port3 ++ (port4 ++ (port5 ++ (port6 ++ (port7 ++ (port8 ++ (port9 ++ port11)))))))))

-- `BSP_IO_PORT_pp_PIN_nn` is 256 * pp + nn.
abbrev pub pin_number : PinCfg → ℕ
pin_number (cfg port pin flags) = 256 * port + pin

abbrev pub flags_of : PinCfg → List Flag
flags_of (cfg port pin flags) = flags

-- The `IOPORT_PERIPHERAL_` constants.
abbrev pub is_peripheral : Flag → Bool
is_peripheral clkout_comp_rtc = true
is_peripheral debug = true
is_peripheral ether_rmii = true
is_peripheral gpt1 = true
is_peripheral iic = true
is_peripheral lcd_graphics = true
is_peripheral qspi = true
is_peripheral sci1_3_5_7_9 = true
is_peripheral spi = true
is_peripheral trace = true
is_peripheral usb_fs = true
is_peripheral usb_hs = true
is_peripheral _ = false

abbrev pub is_peripheral_pin : Flag → Bool
is_peripheral_pin peripheral_pin = true
is_peripheral_pin _ = false

abbrev pub is_analog : Flag → Bool
is_analog analog_enable = true
is_analog _ = false

abbrev pub is_input : Flag → Bool
is_input direction_input = true
is_input _ = false

abbrev pub is_output : Flag → Bool
is_output direction_output = true
is_output _ = false

abbrev pub is_level : Flag → Bool
is_level output_low = true
is_level output_high = true
is_level _ = false

abbrev pub is_irq : Flag → Bool
is_irq irq_enable = true
is_irq _ = false

abbrev pub bit : Bool → ℕ
bit true = 1
bit false = 0

-- How many of the flags pass the test.
abbrev pub count : (Flag → Bool) → List Flag → ℕ
count test [] = 0
count test (f ∷ fs) = bit (test f) + count test fs
