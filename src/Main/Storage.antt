-- ===== src/Main/Storage.antt =====
-- src/socket_storage.rs: the static buffers of the sockets. No UDP socket is set up.
use ra6m3_rtic.Prelude.{ℕ, ◌+◌, ◌*◌, List}
use ra6m3_rtic.Prelude.Lists.{replicate}

abbrev pub num_tcp_sockets : ℕ
num_tcp_sockets = 1 + 1

abbrev pub num_udp_sockets : ℕ
num_udp_sockets = 0

abbrev pub num_sockets : ℕ
num_sockets = num_udp_sockets + num_tcp_sockets

abbrev pub tcp_rx_socket_buffer_size : ℕ
tcp_rx_socket_buffer_size = 512

abbrev pub tcp_tx_socket_buffer_size : ℕ
tcp_tx_socket_buffer_size = 512

abbrev pub udp_rx_socket_buffer_size : ℕ
udp_rx_socket_buffer_size = 512

abbrev pub udp_tx_socket_buffer_size : ℕ
udp_tx_socket_buffer_size = 512

abbrev pub udp_socket_metadata_count : ℕ
udp_socket_metadata_count = 10

abbrev pub mqtt_buffer_size : ℕ
mqtt_buffer_size = 3 * 1024

-- `TcpSocketStorage`
pub record TcpSocketStorage : Type 0 where
  pub rx_payload : List ℕ
  pub tx_payload : List ℕ

-- `UdpSocketStorage`; of the metadata, the number of the slots, which are all `EMPTY`.
pub record UdpSocketStorage : Type 0 where
  pub rx_payload : List ℕ
  pub tx_payload : List ℕ
  pub rx_metadata : ℕ
  pub tx_metadata : ℕ

-- `SocketStorage`; of `sockets`, the number of its slots, which are all `EMPTY`.
pub record SocketStorage : Type 0 where
  pub sockets : ℕ
  pub tcp_sockets : List TcpSocketStorage
  pub udp_sockets : List UdpSocketStorage

-- `TcpSocketStorage::new`
unfoldable pub new_tcp : TcpSocketStorage
new_tcp = record {
  rx_payload = replicate tcp_rx_socket_buffer_size 0;
  tx_payload = replicate tcp_tx_socket_buffer_size 0;
}

-- `UdpSocketStorage::new`
unfoldable pub new_udp : UdpSocketStorage
new_udp = record {
  rx_payload = replicate udp_rx_socket_buffer_size 0;
  tx_payload = replicate udp_tx_socket_buffer_size 0;
  rx_metadata = udp_socket_metadata_count;
  tx_metadata = udp_socket_metadata_count;
}

-- `SocketStorage::new`
unfoldable pub new : SocketStorage
unfolding new_tcp new_udp
new = record {
  sockets = num_sockets;
  tcp_sockets = replicate num_tcp_sockets new_tcp;
  udp_sockets = replicate num_udp_sockets new_udp;
}
