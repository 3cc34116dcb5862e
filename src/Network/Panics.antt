-- ===== src/Network/Panics.antt =====
-- src/network.rs: `init_network` leaves the log in order, where it returns and where it panics.
use ra6m3_rtic.Prelude.{◌==◌, ℕ, List}
use ra6m3_rtic.Main.Boot.{Board}
use ra6m3_rtic.Main.Storage.{SocketStorage, TcpSocketStorage}
use ra6m3_rtic.Main.Panics.{
  Keeps, Keeps-bind, Keeps-pure, Keeps-expect, Keeps-unwrap, mono_now-Keeps, info-Keeps,
  trace-Keeps,
}
use ra6m3_rtic.Ethernet.Create.{create_dev}
use ra6m3_rtic.Network.Init.{
  IpAddress, Conf, ethernet, Setup, smol_now, add_tcp_socket, push_addr, add_ip_addrs, configure,
  first_two, add_sockets, init_network,
}

module _ (board : Board) {H : Type 0} where
  create_dev-Keeps : (mac : List ℕ) → Keeps (create_dev {H = H} board mac)
  unfolding create_dev
  create_dev-Keeps mac = Keeps-bind (Keeps-expect board.ether_opens) λ _.
      Keeps-bind (Keeps-expect board.callback_is_set) λ _. Keeps-bind (info-Keeps board) λ _.
        Keeps-bind (Keeps-expect (board.priority_before == board.priority_after)) λ _. Keeps-pure

  module _ (setup : Setup) where
    smol_now-Keeps : Keeps (smol_now setup board {H = H})
    unfolding smol_now
    smol_now-Keeps = Keeps-bind (mono_now-Keeps board) λ now. Keeps-pure

    add_tcp_socket-Keeps :
        (set : setup.SocketSet) (s : TcpSocketStorage)
        → Keeps (add_tcp_socket setup board {H = H} set s)
    unfolding add_tcp_socket
    add_tcp_socket-Keeps set s =
        Keeps-unwrap (setup.add (setup.new_socket s.rx_payload s.tx_payload) set)

    push_addr-Keeps :
        (addr : IpAddress) (netmask : ℕ) (cs : List setup.IpCidr)
        → Keeps (push_addr setup board {H = H} addr netmask cs)
    unfolding push_addr
    push_addr-Keeps addr netmask cs =
        Keeps-bind (Keeps-unwrap (setup.new_cidr addr netmask)) λ c. Keeps-unwrap (setup.push c cs)

    add_ip_addrs-Keeps :
        (conf : Conf) (cs : List setup.IpCidr) → Keeps (add_ip_addrs setup board {H = H} conf cs)
    unfolding add_ip_addrs
    add_ip_addrs-Keeps conf cs = Keeps-bind (trace-Keeps board) λ _.
        Keeps-bind (push_addr-Keeps _ _ _) λ one. Keeps-bind (info-Keeps board) λ _.
          Keeps-bind (push_addr-Keeps _ _ _)
            λ two. Keeps-bind (info-Keeps board) λ _. push_addr-Keeps _ _ _

    configure-Keeps :
        (conf : Conf) (iface : setup.Interface) → Keeps (configure setup board {H = H} conf iface)
    unfolding configure
    configure-Keeps conf iface = Keeps-bind (add_ip_addrs-Keeps conf _) λ cs.
        Keeps-bind (Keeps-unwrap (setup.set_ip_addrs cs iface)) λ i₁.
          Keeps-bind (Keeps-unwrap (setup.add_default_ipv4_route conf.ip_v4_gateway i₁))
            λ i₂. Keeps-unwrap (setup.add_default_ipv6_route conf.ip_v6_gateway i₂)

    add_sockets-Keeps : (storage : SocketStorage) → Keeps (add_sockets setup board {H = H} storage)
    unfolding add_sockets
    add_sockets-Keeps storage =
        Keeps-bind (Keeps-unwrap (first_two storage.tcp_sockets)) λ (first, second).
          Keeps-bind (add_tcp_socket-Keeps _ first)
            λ (mqtt, set). Keeps-bind (add_tcp_socket-Keeps set second) λ (http, set'). Keeps-pure

    pub init_network-Keeps :
        (conf : Conf) (storage : SocketStorage)
        → Keeps (init_network setup board {H = H} conf storage)
    unfolding init_network
    init_network-Keeps conf storage = Keeps-bind (create_dev-Keeps conf.mac) λ device.
        Keeps-bind smol_now-Keeps λ now.
          Keeps-bind (Keeps-unwrap (setup.new_interface (ethernet conf.mac) device now))
            λ new_iface.
              Keeps-bind (add_sockets-Keeps storage)
                λ (set, mqtt, http). Keeps-bind (configure-Keeps conf new_iface) λ iface. Keeps-pure
