-- ===== src/Network/Setup.antt =====
-- What `init_network` relies on of smoltcp, and what it makes.
use ra6m3_rtic.Prelude.{ℕ, suc, ◌≤◌, ◌<◌, ◌≡◌, ◌≢◌, true, none, some, List, [], ◌∷◌, ◌++◌}
use ra6m3_rtic.Prelude.Lists.{length}
use ra6m3_rtic.Prelude.Signed.{ℤ}
use ra6m3_rtic.Main.Storage.{new_tcp}
use ra6m3_rtic.Ethernet.Create.{Dev, Medium}
use ra6m3_rtic.Network.Init.{IpAddress, ethernet, Setup}

-- A socket was added to a set under a handle that had none; the other sockets stay.
pub record Added (setup : Setup) (s : setup.Socket) (set : setup.SocketSet) (h : setup.SocketHandle)
    (set' : setup.SocketSet) : Type 0 where
  pub takes_slot : setup.slots_left set ≡ suc (setup.slots_left set')
  pub get_added : setup.get h set' ≡ some s
  pub was_free : setup.get h set ≡ none
  pub get_others :
      (k : setup.SocketHandle) (t : setup.Socket)
      → setup.get k set ≡ some t
      → setup.get k set' ≡ some t

-- What smoltcp documents of the calls: a new interface, with no addresses and no routes, is made if
-- the hardware address is one of the device's medium (otherwise there is a panic); a set with a free slot takes a socket under a handle that no
-- socket has; an address list has room for three (the feature iface-max-addr-count-3) and takes
-- unicast addresses; a routing table has room for two (iface-max-route-count-2).
pub record SetupLaws (setup : Setup) : Type 0 where
  pub new_slots : (n : ℕ) → setup.slots_left (setup.new_set n) ≡ n
  pub add_free :
      (s : setup.Socket) (set : setup.SocketSet)
      → 0 < setup.slots_left set
      → (h : setup.SocketHandle) × (set' : setup.SocketSet) × (setup.add s set ≡ some (h, set'))
        × Added setup s set h set'
  pub new_ethernet :
      (mac : List ℕ) (dev : Dev) (now : ℤ)
      → dev.caps.medium ≡ Medium.ethernet
      → (i : setup.Interface) × (setup.new_interface (ethernet mac) dev now ≡ some i)
        × (setup.ip_addrs i ≡ [])
        × (setup.routes i ≡ 0)
  pub push_room :
      (c : setup.IpCidr) (cs : List setup.IpCidr)
      → length cs < 3
      → setup.push c cs ≡ some (cs ++ c ∷ [])
  pub set_unicast :
      (a b c : setup.IpCidr) (i : setup.Interface)
      → setup.is_unicast a ≡ true
      → setup.is_unicast b ≡ true
      → setup.is_unicast c ≡ true
      → let cs = a ∷ b ∷ c ∷ [] in
        (i' : setup.Interface) × (setup.set_ip_addrs cs i ≡ some i')
        × (setup.ip_addrs i' ≡ cs)
        × (setup.routes i' ≡ setup.routes i)
  pub add_ipv4 :
      (gateway : IpAddress) (i : setup.Interface)
      → setup.routes i < 2
      → (i' : setup.Interface) × (setup.add_default_ipv4_route gateway i ≡ some i')
        × (setup.ip_addrs i' ≡ setup.ip_addrs i)
        × (setup.routes i' ≤ suc (setup.routes i))
  pub add_ipv6 :
      (gateway : IpAddress) (i : setup.Interface)
      → setup.routes i < 2
      → (i' : setup.Interface) × (setup.add_default_ipv6_route gateway i ≡ some i')
        × (setup.ip_addrs i' ≡ setup.ip_addrs i)
        × (setup.routes i' ≤ suc (setup.routes i))

-- The address with its mask is `cidr`, which is unicast.
pub record IsCidr (setup : Setup) (addr : IpAddress) (netmask : ℕ) (cidr : setup.IpCidr)
    : Type 0 where
  pub makes : setup.new_cidr addr netmask ≡ some cidr
  pub unicast : setup.is_unicast cidr ≡ true

-- The two sockets are new, with their own buffers, under different handles.
pub record HasSockets (setup : Setup) (mqtt http : setup.SocketHandle) (set : setup.SocketSet)
    : Type 0 where
  pub has_mqtt : setup.get mqtt set ≡ some (setup.new_socket new_tcp.rx_payload new_tcp.tx_payload)
  pub has_http : setup.get http set ≡ some (setup.new_socket new_tcp.rx_payload new_tcp.tx_payload)
  pub are_distinct : mqtt ≢ http
