-- ===== src/Mqtt/Restart.antt =====
-- The outer loop of src/mqtt.rs goes on after every error, and no turn is refused for the one before.
use ra6m3_rtic.Prelude.{
  ℕ, ◌≡◌, ◌≢◌, refl, ◌⊎◌, inl, inr, Bool, true, false, Option, none, some, List, [], ◌∷◌, Result,
  ok, err,
}
use ra6m3_rtic.Smoltcp.{Smoltcp}
use ra6m3_rtic.PollShare.{World, M}
use ra6m3_rtic.Future.Laws.{Keeps}
use ra6m3_rtic.Socket.Types.{ConnectError, SocketInner, TcpSocket, new}
use ra6m3_rtic.Socket.Tcp.{disconnect}
use ra6m3_rtic.Socket.Frame.{SetLaws}
use ra6m3_rtic.Socket.Laws.{WakerLaws, StateLaws}
use ra6m3_rtic.Socket.Lifecycle.{Held}
use ra6m3_rtic.Socket.Disconnect.{Disconnects, disconnect-Disconnects}
use ra6m3_rtic.Mqtt.Backoff.{Attempts}
use ra6m3_rtic.Mqtt.Transport.{connect_transport}
use ra6m3_rtic.Mqtt.Reconnect.{Opens, open_transport-Opens}
use ra6m3_rtic.Mqtt.Echo.{Heapless}
use ra6m3_rtic.Mqtt.Subscribe.{Minimq}
use ra6m3_rtic.Mqtt.Session.{
  Log, transport_failed, session_failed, Turn, run_session, with_log, after_disconnect,
  after_session, after_transport, mqtt,
}
use ra6m3_rtic.Mqtt.Turns.{Behaves, Ended, run_session-Ended}

module _ (smol : Smoltcp) (from_secs : ℕ → smol.Duration) (heapless : Heapless) {E : Type 0}
    (minimq : Minimq smol E) (disconnected : E) where
  abbrev pub AllBehave : SocketInner smol → List (Turn smol minimq) → Type 0
  AllBehave io [] = Unit
  AllBehave io (t ∷ ts) = Behaves smol from_secs heapless minimq disconnected io t × AllBehave io ts

  -- In this turn the task waits with the store `w`: `connect_transport` has not returned, the session
  -- has not ended, or `disconnect` has not returned.
  abbrev pub Stays :
      smol.SocketHandle → smol.IpEndpoint → smol.Waker → Turn smol minimq → World smol → Type 0
  Stays handle remote cx t w =
      ((a : Attempts) × (old : World smol) × ((connect_transport smol from_secs handle remote a
            t.readings cx t.handshake (t.backing_off old)).1
          ≡ some (none, w)))
      ⊎ ((old : World smol) × (run_session smol from_secs heapless minimq disconnected t old
            ≡ some (none, w)))
      ⊎ ((old : World smol) × (disconnect smol (new {smol = smol} handle) cx t.leaving old
            ≡ some (none, w)))

  -- The log of these turns: one error for each, none of which is `InvalidState` of the transport, up
  -- to the end of the turns or to a turn in which the task waits.
  abbrev pub Goes :
      smol.SocketHandle
      → smol.IpEndpoint
      → smol.Waker
      → List (Turn smol minimq)
      → List (Log E)
      → World smol
      → Type 0
  Goes handle remote cx [] [] w = Unit
  Goes handle remote cx [] (_ ∷ logs) w = ⊥
  Goes handle remote cx (t ∷ ts) [] w = Stays handle remote cx t w
  Goes handle remote cx (t ∷ ts) (transport_failed e ∷ logs) w =
      (e ≢ ConnectError.invalid_state) × Goes handle remote cx ts logs w
  Goes handle remote cx (t ∷ ts) (session_failed e ∷ logs) w = Goes handle remote cx ts logs w

  -- The loop did not panic, and went on after every error.
  abbrev pub Persists :
      smol.SocketHandle
      → smol.IpEndpoint
      → smol.Waker
      → List (Turn smol minimq)
      → Option (List (Log E) × World smol)
      → Type 0
  Persists handle remote cx ts none = ⊥
  Persists handle remote cx ts (some (logs, w)) = Goes handle remote cx ts logs w

  module _ (sets : SetLaws smol) (handle : smol.SocketHandle) (remote : smol.IpEndpoint)
      (cx : smol.Waker) (t : Turn smol minimq) (ts : List (Turn smol minimq)) where
    with_log-Persists :
        (e : E) (o : Option (List (Log E) × World smol))
        → Persists handle remote cx ts o
        → Persists handle remote cx
            (t ∷ ts)
            (with_log smol from_secs heapless minimq disconnected (session_failed e) o)
    with_log-Persists e none h = h
    with_log-Persists e (some (logs, w)) h = h

    refused_log-Persists :
        (e : ConnectError) (o : Option (List (Log E) × World smol))
        → e ≢ ConnectError.invalid_state
        → Persists handle remote cx ts o
        → Persists handle remote cx
            (t ∷ ts)
            (with_log smol from_secs heapless minimq disconnected (transport_failed e) o)
    refused_log-Persists e none ne h = h
    refused_log-Persists e (some (logs, w)) ne h = (ne, h)

    module _ (rest : M smol (List (Log E)))
        (goes_on : (w : World smol)
          → Held smol (record { handle = handle }) w
          → Persists handle remote cx ts (rest w)) where
      after_disconnect-Persists :
          (e : E) (old : World smol) (o : Option (Option (Unit {0}) × World smol))
          → disconnect smol (record { io = record { handle = handle } }) cx t.leaving old ≡ o
          → Disconnects smol (record { io = record { handle = handle } }) o
          → Persists handle remote cx
              (t ∷ ts)
              (after_disconnect smol from_secs heapless minimq disconnected e rest o)
      unfolding new
      after_disconnect-Persists e old none is d = d
      after_disconnect-Persists e old (some (none, w)) is d = inr (inr (old, is))
      after_disconnect-Persists e old (some (some _, w)) is (s, h, shut) =
          with_log-Persists e (rest w) (goes_on w (s, h))

      after_session-Persists :
          (old : World smol) (o : Option (Option (Bool × E) × World smol))
          → run_session smol from_secs heapless minimq disconnected t old ≡ o
          → Keeps (λ (_ : Unit {0}) w. Held smol (record { handle = handle }) w) t.leaving
          → Ended smol from_secs heapless minimq disconnected (record { handle = handle }) o
          → Persists handle remote cx (t ∷ ts) (
              after_session smol from_secs heapless minimq disconnected
                (record { io = record { handle = handle } })
                cx
                t.leaving
                rest
                o)
      after_session-Persists old none is keeps h = h
      after_session-Persists old (some (none, w)) is keeps h = inr (inl (old, is))
      after_session-Persists old (some (some (true, e), w)) is keeps h =
          after_disconnect-Persists e w _ refl (
            disconnect-Disconnects smol sets (record { io = record { handle = handle } }) cx
              t.leaving w keeps h)
      after_session-Persists old (some (some (false, e), w)) is keeps h =
          with_log-Persists e (rest w) (goes_on w h)

      after_transport-Persists :
          (a : Attempts) (old : World smol)
          (o : Option (Option (Result (Unit {0}) ConnectError) × World smol))
          → (connect_transport smol from_secs handle remote a t.readings cx t.handshake
              (t.backing_off old)).1
            ≡ o
          → Behaves smol from_secs heapless minimq disconnected (record { handle = handle }) t
          → Opens smol (record { io = record { handle = handle } }) o
          → Persists handle remote cx (t ∷ ts) (
              after_transport smol from_secs heapless minimq disconnected
                (record { io = record { handle = handle } })
                cx
                t
                rest
                o)
      after_transport-Persists a old none is b h = h
      after_transport-Persists a old (some (none, w)) is b h = inl (a, old, is)
      after_transport-Persists a old (some (some (err e), w)) is b (ne, h) =
          refused_log-Persists e (rest w) ne (goes_on w h)
      after_transport-Persists a old (some (some (ok _), w)) is b h =
          after_session-Persists w _ refl b.leaves (
            run_session-Ended smol from_secs heapless minimq disconnected
              (record { handle = handle }) t w b h)

  -- The MQTT task never panics and goes on after every error: each turn of the loop logs one error,
  -- up to the end of the turns or to a turn in which a call still waits. No attempt to open the
  -- transport fails with `InvalidState`, however the sessions before it ended. The network and
  -- minimq keep the socket in place and return, and no message is longer than 498 bytes.
  pub mqtt-Persists :
      SetLaws smol
      → WakerLaws smol
      → StateLaws smol
      → (handle : smol.SocketHandle) (remote : smol.IpEndpoint) (cx : smol.Waker)
      → (a : Attempts) (ts : List (Turn smol minimq)) (w : World smol)
      → AllBehave (record { handle = handle }) ts
      → Held smol (record { handle = handle }) w
      → Persists handle remote cx ts
          (mqtt smol from_secs heapless minimq disconnected handle remote cx a ts w)
  unfolding mqtt connect_transport new
  mqtt-Persists sets wakers states handle remote cx a [] w b h = tt
  mqtt-Persists sets wakers states handle remote cx a (t ∷ ts) w (b, bs) h =
      let tcp : TcpSocket smol = record { io = record { handle = handle } } in
      let (s, h') = b.backs_off w h in
      let (a', opened) =
        connect_transport smol from_secs handle remote a t.readings cx t.handshake
          (t.backing_off w) in
      after_transport-Persists sets handle remote cx t ts
        (mqtt smol from_secs heapless minimq disconnected handle remote cx a' ts)
        (λ w' held. mqtt-Persists sets wakers states handle remote cx a' ts w' bs held) a w opened
        refl b
        (open_transport-Opens smol from_secs sets wakers states tcp remote _ cx t.handshake
          (t.backing_off w) b.shakes h')
