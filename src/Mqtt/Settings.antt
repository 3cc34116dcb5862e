-- ===== src/Mqtt/Settings.antt =====
-- src/mqtt.rs: the buffers of the MQTT task and the configuration of its session. The builder of
-- minimq is a parameter.
use ra6m3_rtic.Prelude.{ℕ, ◌+◌, ◌*◌, ◌/◌, ◌≤◌, ◌≡◌, Option, none, some, List}
use ra6m3_rtic.Prelude.Lists.{length, replicate}
use ra6m3_rtic.Main.Storage.{mqtt_buffer_size}

abbrev pub keepalive_secs : ℕ
keepalive_secs = 10 * 60

abbrev pub mqtt_rx_size : ℕ
mqtt_rx_size = mqtt_buffer_size / 2

abbrev pub tls_tx_size : ℕ
tls_tx_size = 16_640

abbrev pub tls_rx_size : ℕ
tls_rx_size = 16_640

-- `Storage`, with the feature `tls`; without it the last two are left out.
pub record Storage : Type 0 where
  pub buffer : List ℕ
  pub tls_tx : List ℕ
  pub tls_rx : List ℕ

-- `Storage::new`
unfoldable pub new_storage : Storage
new_storage = record {
  buffer = replicate mqtt_buffer_size 0;
  tls_tx = replicate tls_tx_size 0;
  tls_rx = replicate tls_rx_size 0;
}

-- `minimq::ConfigBuilder`, with what a configuration says; `none` is an error.
pub record ConfigBuilder : Type 1 where
  pub Builder : Type 0
  pub from_buffer : List ℕ → ℕ → Option Builder
  pub client_id : List ℕ → Builder → Option Builder
  pub keepalive_interval : ℕ → Builder → Builder
  pub rx_size : Builder → ℕ
  pub tx_size : Builder → ℕ
  pub id : Builder → List ℕ
  pub keepalive : Builder → ℕ

-- What a configuration is.
pub record Says (builder : ConfigBuilder) (rx tx secs : ℕ) (id : List ℕ) (b : builder.Builder)
    : Type 0 where
  pub same_rx : builder.rx_size b ≡ rx
  pub same_tx : builder.tx_size b ≡ tx
  pub same_keepalive : builder.keepalive b ≡ secs
  pub same_id : builder.id b ≡ id

-- Its documentation: a buffer is split at a size within it, an identifier that is short enough is
-- taken, and the keepalive interval is set.
pub record BuilderLaws (builder : ConfigBuilder) : Type 0 where
  pub max_client_id : ℕ
  pub split :
      (buffer : List ℕ) (rx tx : ℕ)
      → rx + tx ≡ length buffer
      → (b : builder.Builder) × (builder.from_buffer buffer rx ≡ some b)
        × (builder.rx_size b ≡ rx)
        × (builder.tx_size b ≡ tx)
  pub take_id :
      (id : List ℕ) (b : builder.Builder)
      → length id ≤ max_client_id
      → (b' : builder.Builder) × (builder.client_id id b ≡ some b')
        × (builder.rx_size b' ≡ builder.rx_size b)
        × (builder.tx_size b' ≡ builder.tx_size b)
        × (builder.id b' ≡ id)
  pub set_keepalive :
      (secs : ℕ) (b : builder.Builder)
      → Says builder
          (builder.rx_size b)
          (builder.tx_size b)
          secs
          (builder.id b)
          (builder.keepalive_interval secs b)

-- The two `expect` of `config`: an error is a panic.
abbrev pub expect : {A : Type 0} {B : Type 0} → Option A → (A → Option B) → Option B
expect none f = none
expect (some a) f = f a

-- `config`
unfoldable pub config : (builder : ConfigBuilder) → List ℕ → Storage → Option builder.Builder
config builder mqtt_client_id storage =
    expect (builder.from_buffer storage.buffer mqtt_rx_size) λ b.
      expect (builder.client_id mqtt_client_id b)
        λ b'. some (builder.keepalive_interval keepalive_secs b')
