-- ===== src/Conf/Broker.antt =====
-- src/conf.rs: the address and the ports of the MQTT broker; src/mqtt.rs: the end point that
-- `connect_transport_inner` makes of them.
use ra6m3_rtic.Prelude.{
  ℕ, ◌<◌, ◌^◌, ◌≡◌, ap, Bool, Option, none, some, List, [], ◌∷◌, if◌then◌else◌, arith, inl,
}
use ra6m3_rtic.Conf.Radix.{parse_u16}
use ra6m3_rtic.Conf.Address.{All, Konst, array_4, parse_ipv4}
use ra6m3_rtic.Conf.Print.{print, joined}
use ra6m3_rtic.Conf.Numbers.{IsRadix-10, from_str_radix-print}
use ra6m3_rtic.Conf.RoundTrip.{collect-joined}

-- The variables of the environment of the build.
pub record Environment : Type 0 where
  pub mqtt_broker_ip : List ℕ
  pub mqtt_broker_port_tls : List ℕ
  pub mqtt_broker_port_tcp : List ℕ

-- MQTT_BROKER_PORT_TLS, MQTT_BROKER_PORT_TCP
unfoldable pub mqtt_broker_port_tls : Environment → Option ℕ
unfolding parse_u16
mqtt_broker_port_tls env = parse_u16 10 env.mqtt_broker_port_tls

unfoldable pub mqtt_broker_port_tcp : Environment → Option ℕ
unfolding parse_u16
mqtt_broker_port_tcp env = parse_u16 10 env.mqtt_broker_port_tcp

-- `broker_port`, with the feature `tls` or without it; all the constants are made, used or not.
abbrev pub broker_port : Bool → Option ℕ → Option ℕ → Option ℕ
broker_port tls (some port_tls) (some port_tcp) = some (if tls then port_tls else port_tcp)
broker_port tls _ _ = none

abbrev pub endpoint {ℓ} : {A : Type ℓ} → Option A → Option ℕ → Option (A × ℕ)
endpoint (some ip) (some port) = some (ip, port)
endpoint _ _ = none

module _ (konst : Konst) where
  -- MQTT_BROKER_IP
  unfoldable pub mqtt_broker_ip {ℓ} : {A : Type ℓ} → (ℕ → ℕ → ℕ → ℕ → A) → Environment → Option A
  unfolding parse_ipv4
  mqtt_broker_ip new env = parse_ipv4 konst env.mqtt_broker_ip new

  -- `remote`
  unfoldable pub remote {ℓ} :
      {A : Type ℓ} → (ℕ → ℕ → ℕ → ℕ → A) → Bool → Environment → Option (A × ℕ)
  unfolding mqtt_broker_ip mqtt_broker_port_tls mqtt_broker_port_tcp
  remote new tls env =
      endpoint (mqtt_broker_ip new env)
        (broker_port tls (mqtt_broker_port_tls env) (mqtt_broker_port_tcp env))

  -- The broker is reached at the address and the port that were printed, which is the port for TLS
  -- exactly with the feature `tls`, as long as the address fits eight bits a part and the ports
  -- sixteen.
  pub remote-print :
      {A : Type 0} (new : ℕ → ℕ → ℕ → ℕ → A) (tls : Bool) (a b c d port_tls port_tcp : ℕ)
      → All (λ n. n < 2 ^ 8) (a ∷ b ∷ c ∷ d ∷ [])
      → port_tls < 2 ^ 16
      → port_tcp < 2 ^ 16
      → remote new tls (record {
        mqtt_broker_ip = joined 10 b'.' (a ∷ b ∷ c ∷ d ∷ []);
        mqtt_broker_port_tls = print 10 port_tls;
        mqtt_broker_port_tcp = print 10 port_tcp;
      })
        ≡ some (new a b c d, if tls then port_tls else port_tcp)
  unfolding remote
  remote-print new tls a b c d port_tls port_tcp hs h k =
      rw
        (
          from_str_radix-print (2 ^ 16) 10 IsRadix-10 port_tls h,
          from_str_radix-print (2 ^ 16) 10 IsRadix-10 port_tcp k,
          parse_u16,
        )
        (ap (λ o. endpoint (array_4 new o) (some (if tls then port_tls else port_tcp)))
          (collect-joined konst (2 ^ 8) 10 b'.' IsRadix-10 (inl (omega arith)) a (b ∷ c ∷ d ∷ [])
            hs))
