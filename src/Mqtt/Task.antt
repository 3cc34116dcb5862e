-- ===== src/Mqtt/Task.antt =====
-- src/mqtt.rs: the whole of `mqtt`, from the storage of its task on.
use ra6m3_rtic.Prelude.{ℕ, none, some, List}
use ra6m3_rtic.Smoltcp.{Smoltcp}
use ra6m3_rtic.PollShare.{M}
use ra6m3_rtic.Mqtt.Backoff.{initial}
use ra6m3_rtic.Mqtt.Echo.{Heapless}
use ra6m3_rtic.Mqtt.Subscribe.{Minimq}
use ra6m3_rtic.Mqtt.Session
use ra6m3_rtic.Mqtt.Session.{Log, Turn}
use ra6m3_rtic.Mqtt.Settings.{Storage, ConfigBuilder, config}

module _ (smol : Smoltcp) (from_secs : ℕ → smol.Duration) (heapless : Heapless) {E : Type 0}
    (minimq : Minimq smol E) (disconnected : E) (builder : ConfigBuilder) where
  -- `mqtt`: the turns of its loop are those of a session with the configuration.
  unfoldable pub task :
      smol.SocketHandle
      → smol.IpEndpoint
      → smol.Waker
      → List ℕ
      → Storage
      → (builder.Builder → List (Turn smol minimq))
      → M smol (List (Log E))
  unfolding config Session.mqtt initial
  task handle remote cx mqtt_client_id storage turns w =
      elim (config builder mqtt_client_id storage) [
        | none ↦ none
        | some b ↦
            Session.mqtt smol from_secs heapless minimq disconnected handle remote cx initial
              (turns b) w
      ]
