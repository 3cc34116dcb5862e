-- ===== src/Mqtt/TlsOpen.antt =====
-- How an attempt of src/mqtt.rs ends with the feature `tls`.
use mathlib.Core.Path.{subst}
use ra6m3_rtic.Prelude.{ℕ, ◌≡◌, ◌≢◌, ◌∙◌, sym, Option, none, some, List, Result, ok, err}
use ra6m3_rtic.Smoltcp.{Smoltcp}
use ra6m3_rtic.PollShare.{pure, >>=_lem, World}
use ra6m3_rtic.Future.{Schedule}
use ra6m3_rtic.Future.Laws.{Keeps}
use ra6m3_rtic.Socket.Types.{ConnectError, TcpSocket, new}
use ra6m3_rtic.Socket.Frame.{SetLaws, Holds}
use ra6m3_rtic.Socket.Laws.{WakerLaws, StateLaws}
use ra6m3_rtic.Socket.Lifecycle.{Held, Connecting}
use ra6m3_rtic.Mqtt.Backoff.{Attempts, Readings, local_port}
use ra6m3_rtic.Mqtt.Reconnect.{Opens, open_transport-Opens}
use ra6m3_rtic.Mqtt.Tls.{
  socket_open, new_tls, EmbeddedTls, TlsSocket, after_open, open_tls, connect_transport_tls,
}
use ra6m3_rtic.Socket.Whole.{into_inner}
use ra6m3_rtic.Mqtt.TlsClose.{TlsLaws}

module _ (smol : Smoltcp) (tls : EmbeddedTls smol) (laws : TlsLaws smol tls) where
  -- How an attempt ends: pending, with a connection over the socket, or with an error that is not
  -- `InvalidState`; the socket is in its place.
  abbrev pub OpensTls :
      TcpSocket smol → Option (Option (Result (TlsSocket tls) ConnectError) × World smol) → Type 0
  OpensTls tcp none = ⊥
  OpensTls tcp (some (none, w)) = Held smol tcp.io w
  OpensTls tcp (some (some (ok t), w)) = (laws.delegate t.connection ≡ tcp.io) × Held smol tcp.io w
  OpensTls tcp (some (some (err e), w)) = (e ≢ ConnectError.invalid_state) × Held smol tcp.io w

  module _ (ctx : tls.TlsContext) (rx tx : List ℕ) (tcp : TcpSocket smol) (cx : smol.Waker)
      (handshake : Schedule smol)
      (keeps : Keeps (λ (_ : Unit {0}) w. Held smol tcp.io w) handshake) where
    after_open-OpensTls :
        (a : Option (Result (Unit {0}) tls.TlsError)) (t : TlsSocket tls) (w : World smol)
        → laws.delegate t.connection ≡ tcp.io
        → Held smol tcp.io w
        → OpensTls tcp (some (after_open smol tls t a, w))
    after_open-OpensTls none t w over h = h
    after_open-OpensTls (some (ok _)) t w over h = (over, h)
    after_open-OpensTls (some (err _)) t w over h = (λ x. cc, h)

    over : tls.TlsConnection → TlsSocket tls
    over c = record { connection = c }

    answered :
        (a : Option (Result (Unit {0}) tls.TlsError)) (t : TlsSocket tls) (w w' : World smol)
        → tls.tls_open ctx (tls.new tcp.io rx tx) cx handshake w ≡ some ((a, t.connection), w')
        → open_tls smol tls ctx rx tx tcp cx handshake (some (ok tt)) w
          ≡ some (after_open smol tls t a, w')
    unfolding open_tls socket_open new_tls into_inner over
    answered a t w w' e =
        >>=_lem (socket_open smol tls ctx (new_tls smol tls tcp rx tx) cx handshake)
          (λ (b, u). pure (after_open smol tls u b)) w
          (>>=_lem (tls.tls_open ctx (tls.new tcp.io rx tx) cx handshake)
            (λ (b, c). pure (b, over c)) w e)

    handshake-OpensTls :
        (w : World smol)
        → Held smol tcp.io w
        → OpensTls tcp (open_tls smol tls ctx rx tx tcp cx handshake (some (ok tt)) w)
    handshake-OpensTls w h =
        let c = tls.new tcp.io rx tx in
        let over = laws.delegate_new tcp.io rx tx in
        let (a, c', w', e, same, h') =
          laws.open_keeps ctx c cx handshake w
            (subst (λ io. Keeps (λ (_ : Unit {0}) w. Held smol io w) handshake) (sym over) keeps)
            (subst (λ io. Held smol io w) (sym over) h) in
        let t : TlsSocket tls = record { connection = c' } in
        subst (OpensTls tcp) (sym (answered a t w w' e))
          (after_open-OpensTls a t w' (same ∙ over) (subst (λ io. Held smol io w') over h'))

    -- The handshake behind each answer of the TCP transport.
    open_tls-OpensTls :
        (r : Option (Option (Result (Unit {0}) ConnectError) × World smol))
        → Opens smol tcp r
        → OpensTls tcp (elim r [
          | none ↦ none
          | some (a, w) ↦ open_tls smol tls ctx rx tx tcp cx handshake a w
        ])
    unfolding open_tls
    open_tls-OpensTls none h = h
    open_tls-OpensTls (some (none, w)) (s, h, _) = (s, h)
    open_tls-OpensTls (some (some (ok tt), w)) (s, h, _) = handshake-OpensTls w (s, h)
    open_tls-OpensTls (some (some (err e), w)) h = h

  -- With the feature `tls`, whatever state the previous session left the socket in, an attempt does
  -- not panic and never fails with `InvalidState`. If it succeeds the TLS connection is over this
  -- socket; with an error, of TCP or of the handshake, the socket is still in its place. The changes
  -- between the polls keep the socket in place, and while `connect` waits never make it listen.
  pub connect_transport_tls-OpensTls :
      (from_secs : ℕ → smol.Duration)
      → SetLaws smol
      → WakerLaws smol
      → StateLaws smol
      → (ctx : tls.TlsContext) (tls_rx tls_tx : List ℕ) (handle : smol.SocketHandle)
      → (remote : smol.IpEndpoint) (a : Attempts) (r : Readings) (cx : smol.Waker)
      → (sched handshake : Schedule smol) (w : World smol) {s : smol.Socket}
      → Keeps (λ (_ : Unit {0}) w. Connecting smol (new {smol = smol} handle).io w) sched
      → Keeps (λ (_ : Unit {0}) w. Held smol (new {smol = smol} handle).io w) handshake
      → Holds smol (new {smol = smol} handle).io s w
      → OpensTls
          (new handle)
          (connect_transport_tls smol tls from_secs ctx tls_rx tls_tx handle remote a r cx sched
            handshake w).1
  unfolding connect_transport_tls
  connect_transport_tls-OpensTls from_secs sets wakers states ctx rx tx handle remote a r cx sched
        handshake w keeps stays h =
      open_tls-OpensTls ctx rx tx (new handle) cx handshake stays _ (
        open_transport-Opens smol from_secs sets wakers states (new handle) remote (local_port a) cx
          sched w keeps h)
