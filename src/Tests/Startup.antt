-- ===== src/Tests/Startup.antt =====
-- The start-up on a small stack, with the addresses of env.toml.example, and the interrupt of the
-- Ethernet driver.
use ra6m3_rtic.Prelude.{
  inl, ℕ, zero, suc, ◌+◌, ◌≤◌, ◌<◌, ◌≡◌, refl, true, false, Option, none, some, List, [], ◌∷◌, ◌++◌,
  arith, if◌then◌else◌, ltb,
}
use ra6m3_rtic.Prelude.Lists.{length, get_elem?}
use ra6m3_rtic.Main.Boot.{Board, blinky, http_task, mqtt_task, network_link_poll, network_poller}
use ra6m3_rtic.Main.Ends.{Ends}
use ra6m3_rtic.Main.Up.{Up}
use ra6m3_rtic.Main.Storage.{new}
use ra6m3_rtic.Main.Init.{reset, init}
use ra6m3_rtic.Main.Startup.{init-Starts}
use ra6m3_rtic.Ethernet.Callback.{InterruptCause, call_with_block, interrupt_served}
use ra6m3_rtic.Ethernet.Create.{Medium}
use ra6m3_rtic.Network.Flag.{
  Reach, here, next, dispatches, polls, polls_network, spawned, dispatch, poll_or,
}
use ra6m3_rtic.Network.Init.{IpAddress, v4, v6, Conf, Setup, loopback}
use ra6m3_rtic.Network.Setup.{Added, SetupLaws, HasSockets}

-- A set with its free slots counted, and its sockets in the order of their handles.
pub record Slots : Type 0 where
  pub left : ℕ
  pub sockets : List (List ℕ × List ℕ)

abbrev slots : ℕ → List (List ℕ × List ℕ) → Slots
slots n xs = record { left = n; sockets = xs }

abbrev iface : List (IpAddress × ℕ) → ℕ → List (IpAddress × ℕ) × ℕ
iface cs n = (cs, n)

abbrev pub into : (List ℕ × List ℕ) → Slots → Option (ℕ × Slots)
into s set = elim set.left [
  | zero ↦ none
  | suc n ↦ some (length set.sockets, record { left = n; sockets = set.sockets ++ s ∷ [] })
]

abbrev pub small_setup : Setup
small_setup = record {
  Interface = List (IpAddress × ℕ) × ℕ;
  SocketSet = Slots;
  SocketHandle = ℕ;
  Socket = List ℕ × List ℕ;
  IpCidr = IpAddress × ℕ;
  new_interface =
      λ address dev now. elim dev.caps.medium [ Medium.ethernet ↦ some ([], 0) | _ ↦ none ];
  new_set = λ n. record { left = n; sockets = [] };
  new_socket = λ rx tx. (rx, tx);
  add = into;
  get = λ h set. get_elem? set.sockets h;
  slots_left = λ set. set.left;
  new_cidr = λ addr n. some (addr, n);
  is_unicast = λ cidr. true;
  ip_addrs = λ i. i.0;
  push = λ c cs. if ltb (length cs) 3 then some (cs ++ c ∷ []) else none;
  set_ip_addrs = λ cs i. some (cs, i.1);
  routes = λ i. i.1;
  add_default_ipv4_route = λ gateway i. if ltb i.1 2 then some (i.0, suc i.1) else none;
  add_default_ipv6_route = λ gateway i. if ltb i.1 2 then some (i.0, suc i.1) else none;
}

module _ {A : Type 0} (x : A) where
  get_last : (xs : List A) → get_elem? (xs ++ x ∷ []) (length xs) ≡ some x
  get_last [] = refl
  get_last (y ∷ ys) = get_last ys

  get_past : (xs : List A) → get_elem? xs (length xs) ≡ none
  get_past [] = refl
  get_past (y ∷ ys) = get_past ys

  get_before :
      (xs : List A) (k : ℕ) (y : A) → get_elem? xs k ≡ some y → get_elem? (xs ++ x ∷ []) k ≡ some y
  get_before [] k y h = absurd (ground arith)
  get_before (z ∷ zs) zero y h = h
  get_before (z ∷ zs) (suc k) y h = get_before zs k y h

into_free :
    (s : List ℕ × List ℕ) (n : ℕ) (xs : List (List ℕ × List ℕ))
    → let set = slots n xs in
      0 < n
      → (h : ℕ) × (set' : Slots) × (into s set ≡ some (h, set')) × Added small_setup s set h set'
into_free s zero xs room = absurd (omega arith)
into_free s (suc n) xs room = (
  length xs,
  record { left = n; sockets = xs ++ s ∷ [] },
  refl,
  record {
    takes_slot = refl;
    get_added = get_last s xs;
    was_free = get_past s xs;
    get_others = get_before s xs;
  },
)

route_free :
    (cs : List (IpAddress × ℕ)) (n : ℕ)
    → n < 2
    → (i : List (IpAddress × ℕ) × ℕ) × ((if ltb n 2 then some (iface cs (suc n)) else none)
        ≡ some i)
      × (i.0 ≡ cs)
      × (i.1 ≤ suc n)
route_free cs n few = ((cs, suc n), ground arith, refl, omega arith)

small_laws : SetupLaws small_setup
small_laws = record {
  new_slots = λ n. refl;
  add_free = λ s set room. into_free s set.left set.sockets room;
  new_ethernet = λ mac dev now e. (([], 0), rw e refl, refl, refl);
  push_room = λ c cs room. ground arith;
  set_unicast = λ a b c i _ _ _. ((a ∷ b ∷ c ∷ [], i.1), refl, refl, refl);
  add_ipv4 = λ gateway i few. route_free i.0 i.1 few;
  add_ipv6 = λ gateway i few. route_free i.0 i.1 few;
}

abbrev pub board : Board
board = record {
  ioport_opens = true;
  mono_opens = true;
  mono_starts = true;
  embassy_opens = true;
  embassy_starts = true;
  ether_opens = true;
  callback_is_set = true;
  priority_before = 4;
  priority_after = 4;
  traces = true;
  clock = λ n. 30 + n;
  to_micros = λ ticks. ticks;
}

abbrev pub env : Conf
env = record {
  mac = 0x02 ∷ 0x00 ∷ 0x00 ∷ 0x00 ∷ 0x00 ∷ 0x01 ∷ [];
  ip_v4 = v4 192 168 69 100;
  ip_v4_netmask = 24;
  ip_v4_gateway = v4 192 168 69 1;
  ip_v6 = v6 0xfdaa 0 0 0 0 0 0 1;
  ip_v6_netmask = 64;
  ip_v6_gateway = v6 0xfdaa 0 0 0 0 0 0 0xff;
}

init-Starts_example : Ends (init small_setup board env new) reset (λ shared b'.
    (mqtt : ℕ) × (http : ℕ) × Up
      (network_poller ∷ network_link_poll ∷ mqtt_task mqtt ∷ http_task http ∷ blinky ∷ [])
      b'
    × HasSockets small_setup mqtt http shared.net.sockets
    × (shared.net.iface.0 ≡ (env.ip_v4, 24) ∷ (env.ip_v6, 64) ∷ (loopback, 64) ∷ []))
init-Starts_example =
    init-Starts small_setup small_laws board env (env.ip_v4, 24) (env.ip_v6, 64) (loopback, 64)
      (record { makes = refl; unicast = refl }) (record { makes = refl; unicast = refl })
      (record { makes = refl; unicast = refl })
      (record {
        ioport = refl;
        mono_open = refl;
        mono_start = refl;
        embassy_open = refl;
        embassy_start = refl;
        ether = refl;
        callback = refl;
        priority = refl;
      })

abbrev received : InterruptCause
received = record { receive = true; transmits = false; went_up = false }

-- The poller has been polled once, with nothing to do, and is suspended.
idle_poller : Reach spawned (poll_or false (dispatch spawned))
unfolding spawned dispatch
idle_poller = next (next here (dispatches refl refl)) (polls false refl)

interrupt_served_example :
    let (block, p) = call_with_block suc received (7, poll_or false (dispatch spawned)) in
    (block ≡ 8)
    × (p.woken ≡ true)
    × ((poll_or true (dispatch p)).phase ≡ polls_network)
    × ((poll_or true (dispatch p)).request ≡ false)
    × ((poll_or true (dispatch p)).owed ≡ 0)
unfolding spawned dispatch poll_or
interrupt_served_example = interrupt_served suc 7 received idle_poller refl refl (inl refl) true
