-- ===== src/Tests/Configured.antt =====
-- The MQTT task from its storage on, with a builder that splits its buffer.
use ra6m3_rtic.Prelude.{
  ℕ, ◌+◌, ◌-◌, ◌≤◌, ◌≡◌, refl, Option, none, some, List, [], ◌∷◌, leb, if◌then◌else◌, arith,
}
use ra6m3_rtic.Prelude.Lists.{length}
use ra6m3_rtic.Mqtt.Settings.{ConfigBuilder, BuilderLaws}

-- The sizes of the two halves, the keepalive interval, and the identifier.
record Settings : Type 0 where
  rx : ℕ
  tx : ℕ
  secs : ℕ
  name : List ℕ

abbrev halves : List ℕ → ℕ → Option Settings
halves buffer n =
    if leb n (length buffer)
    then some (record { rx = n; tx = length buffer - n; secs = 0; name = [] })
    else none

abbrev named : List ℕ → Settings → Option Settings
named id b = if leb (length id) 23 then some (record b { name = id }) else none

abbrev splitter : ConfigBuilder
splitter = record {
  Builder = Settings;
  from_buffer = halves;
  client_id = named;
  keepalive_interval = λ secs b. record b { secs = secs };
  rx_size = λ b. b.rx;
  tx_size = λ b. b.tx;
  id = λ b. b.name;
  keepalive = λ b. b.secs;
}

splits :
    (buffer : List ℕ) (rx tx : ℕ)
    → rx + tx ≡ length buffer
    → (b : Settings) × (halves buffer rx ≡ some b) × (b.rx ≡ rx) × (b.tx ≡ tx)
splits buffer rx tx e = (
  record { rx = rx; tx = length buffer - rx; secs = 0; name = [] },
  ground (arith, e),
  refl,
  omega (arith, e),
)

takes :
    (id : List ℕ) (b : Settings)
    → length id ≤ 23
    → (b' : Settings) × (named id b ≡ some b') × (b'.rx ≡ b.rx) × (b'.tx ≡ b.tx) × (b'.name ≡ id)
takes id b h = (record b { name = id }, ground (arith, h), refl, refl, refl)

abbrev splitter_laws : BuilderLaws splitter
splitter_laws = record {
  max_client_id = 23;
  split = splits;
  take_id = takes;
  set_keepalive =
      λ secs b. record { same_rx = refl; same_tx = refl; same_keepalive = refl; same_id = refl };
}

-- "ra6m3"
abbrev client : List ℕ
client = b'r' ∷ b'a' ∷ b'6' ∷ b'm' ∷ b'3' ∷ []
