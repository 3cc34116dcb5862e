-- ===== src/Tests/Toy.antt =====
-- A small stack that behaves as Smoltcp asks: sockets by number, a transmit buffer of two octets,
-- and one octet that moves at a time.
use ra6m3_rtic.Prelude.{
  ◌++◌, ℕ, refl, Bool, true, false, not, ◌&&◌, ◌||◌, Option, none, some, List, [], ◌∷◌, Result, ok,
  err, ltb, ◌==◌, if◌then◌else◌,
}
use ra6m3_rtic.Prelude.Lists.{length, is_empty, take}
use ra6m3_rtic.Smoltcp.{Smoltcp, State, RecvError, SendError, ConnectError, ListenError}
use ra6m3_rtic.PollShare.{World}
use ra6m3_rtic.Socket.Types.{SocketInner, TcpSocket}
use ra6m3_rtic.Socket.Frame.{Holds}

pub record Toy : Type 0 where
  pub st : State
  pub rx : List ℕ
  pub eof : Bool
  pub tx : List ℕ
  pub peer : Option ℕ

abbrev pub sends : State → Bool
sends State.established = true
sends State.close_wait = true
sends _ = false

abbrev pub receives : State → Bool
receives State.established = true
receives State.fin_wait1 = true
receives State.fin_wait2 = true
receives _ = false

abbrev pub opens : State → Bool
opens State.closed = false
opens State.time_wait = false
opens _ = true

abbrev pub is_listening : State → Bool
is_listening State.listen = true
is_listening _ = false

abbrev pub closing_state : State → State
closing_state State.established = State.fin_wait1
closing_state State.syn_received = State.fin_wait1
closing_state State.close_wait = State.last_ack
closing_state State.listen = State.closed
closing_state State.syn_sent = State.closed
closing_state st = st

abbrev pub receive : List ℕ → List ℕ → State → Bool → Result ℕ RecvError × List ℕ × List ℕ
receive [] buf st eof =
    if receives st
    then (ok 0, buf, [])
    else (if eof then err RecvError.finished else err RecvError.invalid_state, buf, [])
receive (b ∷ rest) [] st eof = (ok 0, [], b ∷ rest)
receive (b ∷ rest) (c ∷ cs) st eof = (ok 1, b ∷ cs, rest)

abbrev pub receive_toy : List ℕ → Toy → Result ℕ RecvError × List ℕ × Toy
receive_toy buf s =
    let (r, buf', rx) = receive s.rx buf s.st s.eof in (r, buf', record s { rx = rx })

abbrev pub transmit : List ℕ → Toy → Result ℕ SendError × Toy
transmit [] s = if sends s.st then (ok 0, s) else (err SendError.invalid_state, s)
transmit (c ∷ cs) s =
    if sends s.st
    then (if ltb (length s.tx) 2 then (ok 1, record s { tx = s.tx ++ c ∷ [] }) else (ok 0, s))
    else (err SendError.invalid_state, s)

abbrev pub connects : ℕ → ℕ → Toy → Result (Unit {0}) ConnectError × Toy
connects remote port s =
    if opens s.st
    then (err ConnectError.invalid_state, s)
    else if port == 0
    then (err ConnectError.unaddressable, s)
    else (ok tt, record s { st = State.syn_sent; peer = some remote })

abbrev pub listens : ℕ → Toy → Result (Unit {0}) ListenError × Toy
listens port s =
    if is_listening s.st
    then (ok tt, s)
    else if opens s.st
    then (err ListenError.invalid_state, s)
    else (ok tt, record s { st = State.listen; peer = none })

abbrev pub toy : Smoltcp
toy = record {
  Socket = Toy;
  Interface = ℕ;
  SocketSet = ℕ → Option Toy;
  SocketHandle = ℕ;
  IpEndpoint = ℕ;
  IpListenEndpoint = ℕ;
  Duration = ℕ;
  Waker = ℕ;
  get = λ h set. set h;
  put = λ h s set k. if h == k then some s else set k;
  can_recv = λ s. not (is_empty s.rx);
  may_recv = λ s. receives s.st || not (is_empty s.rx);
  can_send = λ s. sends s.st && ltb (length s.tx) 2;
  may_send = λ s. sends s.st;
  is_open = λ s. opens s.st;
  state = λ s. s.st;
  recv_capacity = λ s. 2;
  send_capacity = λ s. 2;
  recv_queue = λ s. length s.rx;
  send_queue = λ s. length s.tx;
  local_endpoint = λ s. s.peer;
  remote_endpoint = λ s. s.peer;
  register_recv_waker = λ cx s. s;
  register_send_waker = λ cx s. s;
  recv_slice = receive_toy;
  send_slice = transmit;
  recv = λ R f s. let (n, rest, r) = f s.rx in (ok r, record s { rx = [] });
  send = λ R f s. let (n, rest, r) = f [] in (ok r, record s { tx = take n rest });
  connect = λ i remote port s. let (r, s') = connects remote port s in (r, i, s');
  listen_on = listens;
  close = λ s. record s { st = closing_state s.st };
  abort = λ s. record s { st = State.closed };
  set_timeout = λ d s. s;
  set_keep_alive = λ d s. s;
  set_hop_limit = λ d s. s;
}

-- A socket in some state, and the store in which it is the only one.
abbrev pub socket_in : State → List ℕ → Toy
socket_in st rx = record { st = st; rx = rx; eof = false; tx = []; peer = some 7 }

abbrev pub only : Toy → ℕ → Option Toy
only s h = if h == 0 then some s else none

abbrev pub world : Toy → World toy
world s = record {
  net = record { iface = 0; sockets = only s };
  borrowed = false;
  poll_request = false;
  wakes = 0;
}

-- What the network does to the sockets between two polls.
abbrev pub on_all : (Toy → Toy) → World toy → World toy
on_all f w = record w {
  net = record {
    iface = w.net.iface;
    sockets = λ h. elim (w.net.sockets h) [ none ↦ none | some s ↦ some (f s) ];
  };
}

pub on_all-Holds :
    (f : Toy → Toy) (io : SocketInner toy) (s : Toy) (w : World toy)
    → Holds toy io s w
    → Holds toy io (f s) (on_all f w)
on_all-Holds f io s w h = record { free = h.free; found = rw h.found refl }

abbrev pub first : SocketInner toy
first = record { handle = 0 }

abbrev pub socket : TcpSocket toy
socket = record { io = first }

pub world-Holds : (s : Toy) → Holds toy first s (world s)
world-Holds s = record { free = refl; found = refl }
