-- ===== src/Socket/Laws.antt =====
-- What src/socket.rs relies on of smoltcp's TCP socket, as its documentation states it.
use ra6m3_rtic.Prelude.{ℕ, ◌≤◌, ◌≡◌, false, true, List, ok, err}
use ra6m3_rtic.Prelude.Lists.{length, is_empty}
use ra6m3_rtic.Smoltcp.{Smoltcp, State, ConnectError}

pub record RecvLaws (smol : Smoltcp) : Type 0 where
  -- A slice keeps its length, and no more octets are received than fit it.
  pub recv_slice_length :
      (buf : List ℕ) (s : smol.Socket) → length (smol.recv_slice buf s).1 ≡ length buf
  pub recv_slice_count :
      (buf : List ℕ) (s : smol.Socket) (n : ℕ) → (smol.recv_slice buf s).0 ≡ ok n → n ≤ length buf
  -- Nothing is received into a slice with room only while the receive half is open and empty.
  pub recv_slice_empty :
      (buf : List ℕ) (s : smol.Socket)
      → is_empty buf ≡ false
      → (smol.recv_slice buf s).0 ≡ ok 0
      → (smol.can_recv s ≡ false) × (smol.may_recv s ≡ true)

pub record SendLaws (smol : Smoltcp) : Type 0 where
  -- No octet of a slice is taken only while the transmit buffer is full.
  pub send_slice_full :
      (buf : List ℕ) (s : smol.Socket)
      → is_empty buf ≡ false
      → (smol.send_slice buf s).0 ≡ ok 0
      → smol.can_send s ≡ false

-- To register a waker changes nothing else.
pub record WakerLaws (smol : Smoltcp) : Type 0 where
  pub send_waker_state :
      (cx : smol.Waker) (s : smol.Socket)
      → smol.state (smol.register_send_waker cx s) ≡ smol.state s
  pub send_waker_may_send :
      (cx : smol.Waker) (s : smol.Socket)
      → smol.may_send (smol.register_send_waker cx s) ≡ smol.may_send s
  pub send_waker_is_open :
      (cx : smol.Waker) (s : smol.Socket)
      → smol.is_open (smol.register_send_waker cx s) ≡ smol.is_open s
  pub recv_waker_is_open :
      (cx : smol.Waker) (s : smol.Socket)
      → smol.is_open (smol.register_recv_waker cx s) ≡ smol.is_open s
  pub recv_waker_can_recv :
      (cx : smol.Waker) (s : smol.Socket)
      → smol.can_recv (smol.register_recv_waker cx s) ≡ smol.can_recv s
  pub recv_waker_may_recv :
      (cx : smol.Waker) (s : smol.Socket)
      → smol.may_recv (smol.register_recv_waker cx s) ≡ smol.may_recv s

-- `abort` closes the socket at once; `connect` starts an active open.
pub record StateLaws (smol : Smoltcp) : Type 0 where
  pub abort_state : (s : smol.Socket) → smol.state (smol.abort s) ≡ State.closed
  pub abort_is_open : (s : smol.Socket) → smol.is_open (smol.abort s) ≡ false
  pub connect_state :
      (i : smol.Interface) (e : smol.IpEndpoint) (port : ℕ) (s : smol.Socket)
      → (smol.connect i e port s).0 ≡ ok tt
      → smol.state (smol.connect i e port s).2 ≡ State.syn_sent
  -- A socket refuses to connect as "invalid" only while it is open.
  pub connect_invalid :
      (i : smol.Interface) (e : smol.IpEndpoint) (port : ℕ) (s : smol.Socket)
      → (smol.connect i e port s).0 ≡ err ConnectError.invalid_state
      → smol.is_open s ≡ true
