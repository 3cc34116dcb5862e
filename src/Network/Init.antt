-- ===== src/Network/Init.antt =====
-- src/network.rs: `init_network`. What it uses of smoltcp to make the interface and the sockets is a
-- parameter.
use ra6m3_rtic.Prelude.{Bool, ℕ, Option, none, some, List, ◌∷◌}
use ra6m3_rtic.Prelude.Signed.{ℤ, as_i64}
use ra6m3_rtic.Main.Boot.{Board, Init, pure, ◌>>=◌, ◌>>◌, unwrap, mono_now, info, trace}
use ra6m3_rtic.Main.Storage.{SocketStorage, TcpSocketStorage}
use ra6m3_rtic.Ethernet.Create.{Dev, create_dev}

-- `IpAddress`, by its bytes or its groups.
pub data IpAddress : Type 0 where
  v4 : ℕ → ℕ → ℕ → ℕ → IpAddress
  v6 : ℕ → ℕ → ℕ → ℕ → ℕ → ℕ → ℕ → ℕ → IpAddress

-- The constants of src/conf.rs.
pub record Conf : Type 0 where
  pub mac : List ℕ
  pub ip_v4 : IpAddress
  pub ip_v4_netmask : ℕ
  pub ip_v4_gateway : IpAddress
  pub ip_v6 : IpAddress
  pub ip_v6_netmask : ℕ
  pub ip_v6_gateway : IpAddress

-- `HardwareAddress`: smoltcp is built with Ethernet as its only medium.
pub data HardwareAddress : Type 0 where
  ethernet : List ℕ → HardwareAddress

-- The constructors and calls; `none` is a panic, or an error that the code unwraps. `slots_left`
-- counts the slots of a set without a socket, and `routes` the entries of the routing table.
pub record Setup : Type 1 where
  pub Interface : Type 0
  pub SocketSet : Type 0
  pub SocketHandle : Type 0
  pub Socket : Type 0
  pub IpCidr : Type 0
  pub new_interface : HardwareAddress → Dev → ℤ → Option Interface
  pub new_set : ℕ → SocketSet
  pub new_socket : List ℕ → List ℕ → Socket
  pub add : Socket → SocketSet → Option (SocketHandle × SocketSet)
  pub get : SocketHandle → SocketSet → Option Socket
  pub slots_left : SocketSet → ℕ
  pub new_cidr : IpAddress → ℕ → Option IpCidr
  pub is_unicast : IpCidr → Bool
  pub ip_addrs : Interface → List IpCidr
  pub push : IpCidr → List IpCidr → Option (List IpCidr)
  pub set_ip_addrs : List IpCidr → Interface → Option Interface
  pub routes : Interface → ℕ
  pub add_default_ipv4_route : IpAddress → Interface → Option Interface
  pub add_default_ipv6_route : IpAddress → Interface → Option Interface

pub record Net (setup : Setup) : Type 0 where
  pub iface : setup.Interface
  pub sockets : setup.SocketSet

-- `let [mqtt, http, ..] = &mut storage.tcp_sockets`; a shorter array does not compile.
abbrev pub first_two {ℓ} : {A : Type ℓ} → List A → Option (A × A)
first_two (a ∷ b ∷ _) = some (a, b)
first_two _ = none

abbrev pub loopback : IpAddress
loopback = v6 0xfe80 0 0 0 0 0 0 1

module _ (setup : Setup) (board : Board) {H : Type 0} where
  -- `smol_now`, as the start-up reads the clock.
  unfoldable pub smol_now : Init H ℤ
  unfolding mono_now
  smol_now = do now ← mono_now board; pure (as_i64 (board.to_micros now))

  -- `add_tcp_socket`
  unfoldable pub add_tcp_socket :
      setup.SocketSet → TcpSocketStorage → Init H (setup.SocketHandle × setup.SocketSet)
  add_tcp_socket sockets s = unwrap (setup.add (setup.new_socket s.rx_payload s.tx_payload) sockets)

  -- `ip_addrs.push(IpCidr::new(…)).unwrap()`
  unfoldable pub push_addr : IpAddress → ℕ → List setup.IpCidr → Init H (List setup.IpCidr)
  push_addr addr netmask ip_addrs = do
    cidr ← unwrap (setup.new_cidr addr netmask)
    unwrap (setup.push cidr ip_addrs)

  -- The closure of `update_ip_addrs`.
  unfoldable pub add_ip_addrs : Conf → List setup.IpCidr → Init H (List setup.IpCidr)
  unfolding trace info push_addr
  add_ip_addrs conf ip_addrs = do
    trace board
    one ← push_addr conf.ip_v4 conf.ip_v4_netmask ip_addrs
    info board
    two ← push_addr conf.ip_v6 conf.ip_v6_netmask one
    info board
    push_addr loopback 64 two

  -- The interface with its addresses and routes.
  unfoldable pub configure : Conf → setup.Interface → Init H setup.Interface
  unfolding add_ip_addrs
  configure conf iface = do
    ip_addrs ← add_ip_addrs conf (setup.ip_addrs iface)
    iface₁ ← unwrap (setup.set_ip_addrs ip_addrs iface)
    iface₂ ← unwrap (setup.add_default_ipv4_route conf.ip_v4_gateway iface₁)
    unwrap (setup.add_default_ipv6_route conf.ip_v6_gateway iface₂)

  -- The two sockets: the set, the handle for MQTT and the one for HTTP.
  unfoldable pub add_sockets :
      SocketStorage → Init H (setup.SocketSet × setup.SocketHandle × setup.SocketHandle)
  unfolding add_tcp_socket
  add_sockets storage = do
    (first, second) ← unwrap (first_two storage.tcp_sockets)
    (mqtt, sockets) ← add_tcp_socket (setup.new_set storage.sockets) first
    (http, sockets') ← add_tcp_socket sockets second
    pure (sockets', mqtt, http)

  -- `init_network`: the network, the device, the two handles.
  unfoldable pub init_network :
      Conf → SocketStorage → Init H (Net setup × Dev × setup.SocketHandle × setup.SocketHandle)
  unfolding create_dev smol_now add_sockets configure
  init_network conf storage = do
    device ← create_dev board conf.mac
    now ← smol_now
    new_iface ← unwrap (setup.new_interface (ethernet conf.mac) device now)
    (sockets, mqtt, http) ← add_sockets storage
    iface ← configure conf new_iface
    pure (record { iface = iface; sockets = sockets }, device, mqtt, http)
