-- ===== src/Smoltcp.antt =====
-- What src/socket.rs and src/network.rs use of the smoltcp crate, which is not part of this
-- repository: the operations of `smoltcp::socket::tcp::Socket` and of `SocketSet` are a record
-- that the definitions take as a parameter. `State` and the error enums are its public types.
use ra6m3_rtic.Prelude.{ℕ, Bool, Option, List, Result}

-- `smoltcp::socket::tcp::State`
pub data State : Type 0 where
  closed listen syn_sent syn_received established fin_wait1 fin_wait2 close_wait closing : State
  last_ack time_wait : State

pub data RecvError : Type 0 where
  finished invalid_state : RecvError

pub data SendError : Type 0 where
  invalid_state : SendError

pub data ConnectError : Type 0 where
  invalid_state unaddressable : ConnectError

pub data ListenError : Type 0 where
  invalid_state unaddressable : ListenError

-- The types of the crate and the operations called. A method with `&mut self` returns the new
-- socket; a slice that is written returns as it was left.
pub record Smoltcp : Type 1 where
  pub Socket : Type 0
  pub Interface : Type 0
  pub SocketSet : Type 0
  pub SocketHandle : Type 0
  pub IpEndpoint : Type 0
  pub IpListenEndpoint : Type 0
  pub Duration : Type 0
  pub Waker : Type 0
  -- `SocketSet::get` and `get_mut`; `none` is the panic on a handle of no socket.
  pub get : SocketHandle → SocketSet → Option Socket
  pub put : SocketHandle → Socket → SocketSet → SocketSet
  pub can_recv : Socket → Bool
  pub may_recv : Socket → Bool
  pub can_send : Socket → Bool
  pub may_send : Socket → Bool
  pub is_open : Socket → Bool
  pub state : Socket → State
  pub recv_capacity : Socket → ℕ
  pub send_capacity : Socket → ℕ
  pub recv_queue : Socket → ℕ
  pub send_queue : Socket → ℕ
  pub local_endpoint : Socket → Option IpEndpoint
  pub remote_endpoint : Socket → Option IpEndpoint
  pub register_recv_waker : Waker → Socket → Socket
  pub register_send_waker : Waker → Socket → Socket
  pub recv_slice : List ℕ → Socket → Result ℕ RecvError × List ℕ × Socket
  pub send_slice : List ℕ → Socket → Result ℕ SendError × Socket
  -- The callback gets the buffer's slice; it returns a count, the slice as it leaves it, a value.
  pub recv : (R : Type 0) → (List ℕ → ℕ × List ℕ × R) → Socket → Result R RecvError × Socket
  pub send : (R : Type 0) → (List ℕ → ℕ × List ℕ × R) → Socket → Result R SendError × Socket
  pub connect :
      Interface → IpEndpoint → ℕ → Socket → Result (Unit {0}) ConnectError × Interface × Socket
  pub listen_on : IpListenEndpoint → Socket → Result (Unit {0}) ListenError × Socket
  pub close : Socket → Socket
  pub abort : Socket → Socket
  pub set_timeout : Option Duration → Socket → Socket
  pub set_keep_alive : Option Duration → Socket → Socket
  pub set_hop_limit : Option ℕ → Socket → Socket
