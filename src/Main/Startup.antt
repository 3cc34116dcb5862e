-- ===== src/Main/Startup.antt =====
-- The start-up of src/main.rs reaches its end, in the order that the clocks need.
use ra6m3_rtic.Prelude.{◌≡◌, refl, arith, true, ap, ◌∙◌, [], ◌∷◌}
use ra6m3_rtic.Main.Boot.{
  Board, Boot, blinky, http_task, mqtt_task, network_link_poll, network_poller, start_mono,
  start_embassy, info,
}
use ra6m3_rtic.Main.Ends.{
  Ends, Ends-bind, Ends-pure, Ends-expect, Logged, Logged-refl, Logged-trans, info-Ends,
  start_mono-Ends, start_embassy-Ends,
}
use ra6m3_rtic.Main.Up.{Up, Works, Ends-weaken, info-Up, spawn-Up}
use ra6m3_rtic.Main.Storage.{new}
use ra6m3_rtic.Main.Init.{reset, init}
use ra6m3_rtic.Network.Init.{Conf, Setup, loopback}
use ra6m3_rtic.Network.Setup.{SetupLaws, IsCidr, HasSockets}
use ra6m3_rtic.Network.Starts.{init_network-Up}

module _ {H : Type 0} (board : Board) where
  -- While nothing is started a log line reads no clock.
  early_info : (b : Boot H) → Logged reset b → Ends (info board) b (λ _ b'. Logged reset b')
  unfolding reset
  early_info b l =
      Ends-weaken (info-Ends board b λ s. absurd (ground (arith, l.same_started, s)))
        λ _ b' k. Logged-trans l k

  -- `start_mono` sets STARTED once the clock can be read.
  start_mono-Up :
      (b : Boot H)
      → Works board
      → Logged reset b
      → Ends
          (start_mono board)
          b
          (λ _ b'. (b'.initialized ≡ true) × (b'.started ≡ true) × (b'.spawned ≡ []))
  unfolding reset
  start_mono-Up b works l =
      Ends-weaken (start_mono-Ends board b works.mono_open works.mono_start) λ _ b' e. (
        ap (λ (c : Boot H). c.initialized) e,
        ap (λ (c : Boot H). c.started) e,
        ap (λ (c : Boot H). c.spawned) e ∙ l.same_spawned,
      )

  start_embassy-Up :
      (b : Boot H)
      → Works board
      → (b.initialized ≡ true) × (b.started ≡ true) × (b.spawned ≡ [])
      → Ends (start_embassy board) b (λ _ b'. Up [] b')
  start_embassy-Up b works (i, s, ts) =
      Ends-weaken (start_embassy-Ends board b works.embassy_open works.embassy_start) λ _ b' e.
        record {
          is_initialized = ap (λ (c : Boot H). c.initialized) e ∙ i;
          is_started = ap (λ (c : Boot H). c.started) e ∙ s;
          has_embassy = ap (λ (c : Boot H). c.embassy_started) e;
          has_spawned = ap (λ (c : Boot H). c.spawned) e ∙ ts;
        }

-- From reset, if every driver opens and starts, the Ethernet driver takes its callback and leaves the
-- priority of its interrupt as it was (otherwise `assert_eq!` panics), the three addresses with their masks are unicast,
-- and smoltcp keeps to its documentation, `init` does not panic: it never reads the clock before it
-- runs. At its end both timers run, the five tasks are spawned, MQTT and HTTP each with the handle
-- of a new socket of its own in the set, and the interface has the three addresses.
pub init-Starts :
    (setup : Setup) (laws : SetupLaws setup) (board : Board) (conf : Conf)
    (cidr_v4 cidr_v6 cidr_loopback : setup.IpCidr)
    → IsCidr setup conf.ip_v4 conf.ip_v4_netmask cidr_v4
    → IsCidr setup conf.ip_v6 conf.ip_v6_netmask cidr_v6
    → IsCidr setup loopback 64 cidr_loopback
    → Works board
    → Ends (init setup board conf new) reset (λ shared b'.
      (mqtt : setup.SocketHandle) × (http : setup.SocketHandle) × Up
        (network_poller ∷ network_link_poll ∷ mqtt_task mqtt ∷ http_task http ∷ blinky ∷ [])
        b'
      × HasSockets setup mqtt http shared.net.sockets
      × (setup.ip_addrs shared.net.iface ≡ cidr_v4 ∷ cidr_v6 ∷ cidr_loopback ∷ []))
unfolding init
init-Starts setup laws board conf c4 c6 cl is_v4 is_v6 is_loopback works =
    Ends-bind (early_info board reset (Logged-refl reset)) λ _ b₁ l₁.
      Ends-bind (early_info board b₁ l₁) λ _ b₂ l₂.
        Ends-bind (Ends-expect _ b₂ works.ioport l₂) λ _ b₃ l₃.
          Ends-bind (start_mono-Up board b₃ works l₃) λ _ b₄ u₄.
            Ends-bind (start_embassy-Up board b₄ works u₄) λ _ b₅ u₅.
              Ends-bind
                (init_network-Up setup laws board conf c4 c6 cl is_v4 is_v6 is_loopback [] b₅ works
                  u₅)
                λ (net, device, mqtt, http) b₆ (u₆, has, addrs).
                  Ends-bind (spawn-Up [] blinky b₆ u₆ refl) λ _ b₇ u₇.
                    Ends-bind (spawn-Up _ (http_task http) b₇ u₇ refl) λ _ b₈ u₈.
                      Ends-bind (spawn-Up _ (mqtt_task mqtt) b₈ u₈ refl) λ _ b₉ u₉.
                        Ends-bind (spawn-Up _ network_link_poll b₉ u₉ refl) λ _ c₁ v₁.
                          Ends-bind (spawn-Up _ network_poller c₁ v₁ refl) λ _ c₂ v₂.
                            Ends-bind (info-Up _ board c₂ v₂)
                              λ _ c₃ v₃. Ends-pure _ c₃ (mqtt, http, v₃, has, addrs)
