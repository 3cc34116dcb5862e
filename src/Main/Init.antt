-- ===== src/Main/Init.antt =====
-- src/main.rs: `init`.
use ra6m3_rtic.Prelude.{[], false}
use ra6m3_rtic.Main.Boot.{
  Board, Boot, Init, blinky, http_task, mqtt_task, network_link_poll, network_poller, pure, ◌>>=◌,
  ◌>>◌, expect, info, start_mono, start_embassy, spawn,
}
use ra6m3_rtic.Main.Storage.{SocketStorage}
use ra6m3_rtic.Ethernet.Create.{Dev}
use ra6m3_rtic.Network.Init.{Conf, Setup, Net, init_network}

-- Nothing is started yet.
unfoldable pub reset : {H : Type 0} → Boot H
reset = record {
  initialized = false;
  started = false;
  embassy_started = false;
  reads = 0;
  stamps = [];
  spawned = [];
}

-- `Shared`
pub record Shared (setup : Setup) : Type 0 where
  pub net : Net setup
  pub device : Dev

-- `init`, behind the installation of the logger.
unfoldable pub init :
    (setup : Setup) → Board → Conf → SocketStorage → Init setup.SocketHandle (Shared setup)
unfolding info start_mono start_embassy init_network spawn
init setup board conf storage = do
  info board
  info board
  expect board.ioport_opens
  start_mono board
  start_embassy board
  (net, device, mqtt_socket_handle, http_socket_handle) ← init_network setup board conf storage
  spawn blinky
  spawn (http_task http_socket_handle)
  spawn (mqtt_task mqtt_socket_handle)
  spawn network_link_poll
  spawn network_poller
  info board
  pure (record { net = net; device = device })
