-- ===== src/Network/Starts.antt =====
-- What `init_network` returns with.
use mathlib.Core.Path.{subst}
use ra6m3_rtic.Prelude.{ℕ, ◌<◌, ◌≡◌, ◌∙◌, sym, refl, ap, List, [], ◌∷◌, ◌++◌, arith, ==_iff}
use ra6m3_rtic.Prelude.Lists.{length}
use ra6m3_rtic.Main.Boot.{Board, Boot, Task, ◌>>=◌, unwrap}
use ra6m3_rtic.Main.Ends.{Ends, Ends-bind, Ends-pure, Ends-expect, Ends-unwrap}
use ra6m3_rtic.Main.Up.{Up, Works, Ends-weaken, mono_now-Up, info-Up, trace-Up}
use ra6m3_rtic.Main.Storage.{TcpSocketStorage, new, new_tcp}
use ra6m3_rtic.Ethernet.Create.{Medium, device_caps, create_dev}
use ra6m3_rtic.Network.Setup.{Added, SetupLaws, IsCidr, HasSockets}
use ra6m3_rtic.Network.Init.{
  IpAddress, Conf, Setup, loopback, smol_now, add_tcp_socket, push_addr, add_ip_addrs, configure,
  add_sockets, init_network,
}

module _ (setup : Setup) (laws : SetupLaws setup) (board : Board) {H : Type 0} where
  add_tcp_socket-Ends :
      (set : setup.SocketSet) (s : TcpSocketStorage) (b : Boot H)
      → 0 < setup.slots_left set
      → Ends
          (add_tcp_socket setup board set s)
          b
          (λ r b'. (b' ≡ b) × Added setup (setup.new_socket s.rx_payload s.tx_payload) set r.0 r.1)
  unfolding add_tcp_socket
  add_tcp_socket-Ends set s b room =
      let (h, set', e, added) =
        laws.add_free (setup.new_socket s.rx_payload s.tx_payload) set room in
      Ends-unwrap _ (h, set') b e (refl, added)

  add_sockets-Ends :
      (b : Boot H)
      → Ends (add_sockets setup board new) b (λ r b'. (b' ≡ b) × HasSockets setup r.1 r.2 r.0)
  unfolding add_sockets new
  add_sockets-Ends b =
      Ends-bind (add_tcp_socket-Ends (setup.new_set 2) new_tcp b (omega (arith, laws.new_slots 2)))
        λ (mqtt, set) b' (e, one).
          Ends-bind
            (add_tcp_socket-Ends set new_tcp b' (omega (arith, laws.new_slots 2, one.takes_slot)))
            λ (http, set') b'' (e', two). Ends-pure _ b'' (
              e' ∙ e,
              record {
                has_mqtt = two.get_others mqtt _ one.get_added;
                has_http = two.get_added;
                are_distinct = λ same. ground (arith, one.get_added, two.was_free, same);
              },
            )

  smol_now-Up :
      (ts : List (Task H)) (b : Boot H) → Up ts b → Ends (smol_now setup board) b (λ _ b'. Up ts b')
  unfolding smol_now
  smol_now-Up ts b u = Ends-bind (mono_now-Up ts board b u) λ now b' u'. Ends-pure _ b' u'

  create_dev-Up :
      (mac : List ℕ) (ts : List (Task H)) (b : Boot H)
      → Works board
      → Up ts b
      → Ends (create_dev board mac) b (λ dev b'. Up ts b' × (dev.caps.medium ≡ Medium.ethernet))
  unfolding create_dev device_caps
  create_dev-Up mac ts b works u = Ends-bind (Ends-expect _ b works.ether u) λ _ b₁ u₁.
      Ends-bind (Ends-expect _ b₁ works.callback u₁) λ _ b₂ u₂.
        Ends-bind (info-Up ts board b₂ u₂) λ _ b₃ u₃.
          Ends-bind (Ends-expect _ b₃ ((==_iff _ _).1 works.priority) u₃)
            λ _ b₄ u₄. Ends-pure _ b₄ (u₄, refl)

  push_addr-Up :
      (addr : IpAddress) (netmask : ℕ) (cidr : setup.IpCidr) (cs ds : List setup.IpCidr)
      (ts : List (Task H)) (b : Boot H)
      → IsCidr setup addr netmask cidr
      → cs ≡ ds
      → length ds < 3
      → Up ts b
      → Ends (push_addr setup board addr netmask cs) b (λ r b'. Up ts b' × (r ≡ ds ++ cidr ∷ []))
  unfolding push_addr
  push_addr-Up addr netmask cidr cs ds ts b is same room u =
      Ends-bind (Ends-unwrap {Q = λ r b'. Up ts b' × (r ≡ cidr)} _ cidr b is.makes (u, refl))
        λ c b' (u', f).
          Ends-unwrap (setup.push c cs) (ds ++ cidr ∷ []) b'
            (rw (f, same, laws.push_room cidr ds room)) (u', refl)

  module _ (conf : Conf) (cidr_v4 cidr_v6 cidr_loopback : setup.IpCidr)
      (is_v4 : IsCidr setup conf.ip_v4 conf.ip_v4_netmask cidr_v4)
      (is_v6 : IsCidr setup conf.ip_v6 conf.ip_v6_netmask cidr_v6)
      (is_loopback : IsCidr setup loopback 64 cidr_loopback) (ts : List (Task H)) where
    add_ip_addrs-Up :
        (cs : List setup.IpCidr) (b : Boot H)
        → cs ≡ []
        → Up ts b
        → Ends
            (add_ip_addrs setup board conf cs)
            b
            (λ r b'. Up ts b' × (r ≡ cidr_v4 ∷ cidr_v6 ∷ cidr_loopback ∷ []))
    unfolding add_ip_addrs
    add_ip_addrs-Up cs b empty u = Ends-bind (trace-Up ts board b u) λ _ b₁ u₁.
        Ends-bind (push_addr-Up _ _ cidr_v4 cs _ ts b₁ is_v4 empty (omega arith) u₁)
          λ one b₂ (u₂, e₂). Ends-bind (info-Up ts board b₂ u₂) λ _ b₃ u₃.
            Ends-bind (push_addr-Up _ _ cidr_v6 one _ ts b₃ is_v6 e₂ (omega arith) u₃)
              λ two b₄ (u₄, e₄). Ends-bind (info-Up ts board b₄ u₄) λ _ b₅ u₅.
                push_addr-Up _ _ cidr_loopback two _ ts b₅ is_loopback e₄ (omega arith) u₅

    -- Both default routes fit.
    add_routes-Up :
        (iface : setup.Interface) (b : Boot H)
        → setup.routes iface ≡ 0
        → Up ts b
        → Ends
            (do
              one ← unwrap (setup.add_default_ipv4_route conf.ip_v4_gateway iface)
              unwrap (setup.add_default_ipv6_route conf.ip_v6_gateway one))
            b
            (λ r b'. Up ts b' × (setup.ip_addrs r ≡ setup.ip_addrs iface))
    add_routes-Up iface b empty u =
        let (one, e, kept, few) = laws.add_ipv4 conf.ip_v4_gateway iface (omega (arith, empty)) in
        let (two, e', kept', _) =
          laws.add_ipv6 conf.ip_v6_gateway one (omega (arith, empty, few)) in
        Ends-bind (Ends-unwrap {Q = λ r b'. Up ts b' × (r ≡ one)} _ one b e (u, refl))
          λ r b' (u', f).
            Ends-unwrap (setup.add_default_ipv6_route conf.ip_v6_gateway r) two b' (rw (f, e'))
              (u', kept' ∙ kept)

    configure-Up :
        (iface : setup.Interface) (b : Boot H)
        → setup.ip_addrs iface ≡ []
        → setup.routes iface ≡ 0
        → Up ts b
        → Ends
            (configure setup board conf iface)
            b
            (λ r b'. Up ts b' × (setup.ip_addrs r ≡ cidr_v4 ∷ cidr_v6 ∷ cidr_loopback ∷ []))
    unfolding configure
    configure-Up iface b empty no_routes u =
        let (set, e, has, routes) =
          laws.set_unicast cidr_v4 cidr_v6 cidr_loopback iface is_v4.unicast is_v6.unicast
            is_loopback.unicast in
        Ends-bind (add_ip_addrs-Up (setup.ip_addrs iface) b empty u) λ addrs b₁ (u₁, f).
          Ends-bind
            (Ends-unwrap {Q = λ r b'. Up ts b' × (r ≡ set)} (setup.set_ip_addrs addrs iface) set b₁
              (rw (f, e)) (u₁, refl))
            λ i b₂ (u₂, g).
              Ends-weaken (add_routes-Up i b₂ (ap setup.routes g ∙ routes ∙ no_routes) u₂)
                λ r b₃ (u₃, kept). (u₃, kept ∙ ap setup.ip_addrs g ∙ has)

    pub init_network-Up :
        (b : Boot H)
        → Works board
        → Up ts b
        → Ends (init_network setup board conf new) b (λ (net, _, mqtt, http) b'.
          Up ts b'
          × HasSockets setup mqtt http net.sockets
          × (setup.ip_addrs net.iface ≡ cidr_v4 ∷ cidr_v6 ∷ cidr_loopback ∷ []))
    unfolding init_network
    init_network-Up b works u =
        Ends-bind (create_dev-Up conf.mac ts b works u) λ device b₁ (u₁, medium).
          Ends-bind (smol_now-Up ts b₁ u₁) λ now b₂ u₂.
            let (i, made, empty, no_routes) = laws.new_ethernet conf.mac device now medium in
            Ends-bind (Ends-unwrap {Q = λ r b'. Up ts b' × (r ≡ i)} _ i b₂ made (u₂, refl))
              λ new_iface b₃ (u₃, is).
                Ends-bind (add_sockets-Ends b₃) λ (sockets, mqtt, http) b₄ (same, has).
                  Ends-bind
                    (configure-Up new_iface b₄ (ap setup.ip_addrs is ∙ empty)
                      (ap setup.routes is ∙ no_routes) (subst (Up ts) (sym same) u₃))
                    λ iface b₅ (u₅, addrs). Ends-pure _ b₅ (u₅, has, addrs)
