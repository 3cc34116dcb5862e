-- ===== src/Ethernet/Create.antt =====
-- src/net_ra6m3.rs: `create_dev`, as far as it is not the driver of FSP.
use mathlib.Core.List.{reverse}
use ra6m3_rtic.Prelude.{ℕ, Bool, true, Option, some, List, leb, if◌then◌else◌, ◌==◌}
use ra6m3_rtic.Prelude.Lists.{replicate}
use ra6m3_rtic.Main.Interrupts.{Interrupt, eth_irq}
use ra6m3_rtic.Main.Boot.{Board, Init, pure, expect, info, ◌>>◌}

abbrev pub mtu : ℕ
mtu = 1504

abbrev pub eth_n_tx_desc : ℕ
eth_n_tx_desc = 4

abbrev pub eth_n_rx_desc : ℕ
eth_n_rx_desc = 4

abbrev pub min : ℕ → ℕ → ℕ
min a b = if leb a b then a else b

-- `Buffers`: zeroed frames for both directions.
pub record Buffers : Type 0 where
  pub tx : List (List ℕ)
  pub rx : List (List ℕ)

-- `EtherConfig`, by its builder methods and its fields. What `EtherConfig::new` takes from the PHY
-- is FSP's, and no part of it.
pub record EtherConfig : Type 0 where
  pub channel : ℕ
  pub zerocopy : Bool
  pub multicast : Bool
  pub promiscuous : Bool
  pub flow_control : Bool
  pub broadcast_filter : ℕ
  pub irq : Interrupt
  pub p_mac_address : List ℕ
  pub tx_descriptors : ℕ
  pub rx_descriptors : ℕ
  pub buffers : Buffers

-- smoltcp's `Medium`.
pub data Medium : Type 0 where
  ethernet ip ieee802154 : Medium

-- smoltcp's `ChecksumCapabilities`, for which the code takes the default, `Checksum::Both`.
pub data ChecksumCapabilities : Type 0 where
  default_checksum : ChecksumCapabilities

-- `DeviceCapabilities`
pub record DeviceCapabilities : Type 0 where
  pub medium : Medium
  pub max_transmission_unit : ℕ
  pub max_burst_size : Option ℕ
  pub checksum : ChecksumCapabilities

-- `Dev::new(eth, caps)`, with the configuration that `eth` was opened with.
pub record Dev : Type 0 where
  pub conf : EtherConfig
  pub caps : DeviceCapabilities

unfoldable pub ether_conf : List ℕ → EtherConfig
ether_conf mac = record {
  channel = 0;
  zerocopy = true;
  multicast = true;
  promiscuous = true;
  flow_control = true;
  broadcast_filter = 0;
  irq = eth_irq;
  p_mac_address = reverse mac;
  tx_descriptors = eth_n_tx_desc;
  rx_descriptors = eth_n_rx_desc;
  buffers = record {
    tx = replicate eth_n_tx_desc (replicate mtu 0);
    rx = replicate eth_n_rx_desc (replicate mtu 0);
  };
}

unfoldable pub device_caps : DeviceCapabilities
device_caps = record {
  medium = ethernet;
  max_transmission_unit = mtu;
  max_burst_size = some (min eth_n_tx_desc eth_n_rx_desc);
  checksum = default_checksum;
}

-- `create_dev`, for the address MAC.
unfoldable pub create_dev : {H : Type 0} → Board → List ℕ → Init H Dev
unfolding info ether_conf device_caps
create_dev board mac = do
  expect board.ether_opens
  expect board.callback_is_set
  info board
  expect (board.priority_before == board.priority_after)
  pure (record { conf = ether_conf mac; caps = device_caps })
