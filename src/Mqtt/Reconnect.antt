-- ===== src/Mqtt/Reconnect.antt =====
-- A reconnect of src/mqtt.rs is never refused because of the session before.
use mathlib.Core.Path.{subst}
use ra6m3_rtic.Prelude.{
  ℕ, ◌≡◌, ◌≢◌, ◌∙◌, refl, sym, Bool, false, Option, none, some, Result, ok, err, Bool-cases, inl,
  inr,
}
use ra6m3_rtic.Smoltcp
use ra6m3_rtic.Smoltcp.{Smoltcp}
use ra6m3_rtic.PollShare.{World, M, ◌>>=◌, >>=_lem}
use ra6m3_rtic.Future.{Schedule}
use ra6m3_rtic.Future.Laws.{Keeps}
use ra6m3_rtic.Socket.Types.{ConnectError, TcpSocket}
use ra6m3_rtic.Socket.Tcp.{set_timeout, set_keep_alive, is_open, abort, connect}
use ra6m3_rtic.Socket.Frame.{SetLaws, Holds, settled, with_lem, on_socket_lem, settled-Holds}
use ra6m3_rtic.Socket.Laws.{WakerLaws, StateLaws}
use ra6m3_rtic.Socket.Lifecycle.{
  Held, Connecting, IsSynchronized, InState, Connects, connect-Connects,
}
use ra6m3_rtic.Mqtt.Transport.{abort_if, open_transport}

module _ (smol : Smoltcp) where
  -- How an attempt ends: not with `InvalidState`, and with the socket in place.
  abbrev pub Opens :
      TcpSocket smol → Option (Option (Result (Unit {0}) ConnectError) × World smol) → Type 0
  Opens tcp none = ⊥
  Opens tcp (some (none, w)) = Connecting smol tcp.io w
  Opens tcp (some (some (ok _), w)) = InState smol IsSynchronized tcp.io w
  Opens tcp (some (some (err e), w)) = (e ≢ ConnectError.invalid_state) × Held smol tcp.io w

  Connects-Opens :
      (tcp : TcpSocket smol) (c : Result (Unit {0}) Smoltcp.ConnectError)
      (r : Option (Option (Result (Unit {0}) ConnectError) × World smol))
      → c ≢ err Smoltcp.ConnectError.invalid_state
      → Connects smol c tcp r
      → Opens tcp r
  Connects-Opens tcp c none ne h = h
  Connects-Opens tcp c (some (none, w)) ne h = h
  Connects-Opens tcp c (some (some (ok _), w)) ne h = h
  Connects-Opens tcp c (some (some (err e), w)) ne (inl reset, held) = (λ x. cc, held)
  Connects-Opens tcp c (some (some (err e), w)) ne
        (inr (Smoltcp.ConnectError.invalid_state, q, e'), held) =
      absurd (ne q)
  Connects-Opens tcp c (some (some (err e), w)) ne
        (inr (Smoltcp.ConnectError.unaddressable, q, e'), held) =
      (λ x. cc, held)

  -- The store with a socket that is not open.
  ShutAt : TcpSocket smol → World smol → Type 0
  ShutAt tcp w = (s : smol.Socket) × Holds smol tcp.io s w × (smol.is_open s ≡ false)

  abort_if_lem :
      SetLaws smol
      → StateLaws smol
      → (tcp : TcpSocket smol) (w : World smol) {s : smol.Socket} → Holds smol tcp.io s w
      → (w' : World smol) × (abort_if smol tcp (smol.is_open s) w ≡ some (tt, w')) × ShutAt tcp w'
  unfolding abort ShutAt
  abort_if_lem sets states tcp w {s} h = elim (Bool-cases (smol.is_open s)) [
    | inl was ↦ (
      settled smol tcp.io (smol.abort s) w.net.iface w,
      rw was (on_socket_lem smol tcp.io (λ s. (tt, smol.abort s)) w h),
      (
        smol.abort s,
        settled-Holds smol sets tcp.io (smol.abort s) w.net.iface w h,
        states.abort_is_open s,
      ),
    )
    | inr shut ↦ (w, rw shut refl, (s, h, shut))
  ]

  -- `connect` on a socket that is not open.
  connect_shut :
      SetLaws smol
      → WakerLaws smol
      → StateLaws smol
      → (tcp : TcpSocket smol) (remote : smol.IpEndpoint) (port : ℕ) (cx : smol.Waker)
      → (sched : Schedule smol) (w : World smol)
      → Keeps (λ (_ : Unit {0}) w. Connecting smol tcp.io w) sched
      → ShutAt tcp w
      → Opens tcp (connect smol tcp remote port cx sched w)
  unfolding ShutAt
  connect_shut sets wakers states tcp remote port cx sched w keeps (s, h, shut) =
      Connects-Opens tcp (smol.connect w.net.iface remote port s).0 _
        (λ refused. cc (states.connect_invalid w.net.iface remote port s refused))
        (connect-Connects smol sets wakers states tcp remote port cx sched w keeps h)

  -- Whatever state the previous session left the socket in, an attempt finds it not open when it
  -- calls `connect`: it never fails with `InvalidState`, it does not panic, and if it succeeds the
  -- socket is past the handshake; with an error the socket is still in place. The changes between the polls never make the socket listen.
  pub open_transport-Opens :
      (from_secs : ℕ → smol.Duration)
      → SetLaws smol
      → WakerLaws smol
      → StateLaws smol
      → (tcp : TcpSocket smol) (remote : smol.IpEndpoint) (port : ℕ) (cx : smol.Waker)
      → (sched : Schedule smol) (w : World smol) {s : smol.Socket}
      → Keeps (λ (_ : Unit {0}) w. Connecting smol tcp.io w) sched
      → Holds smol tcp.io s w
      → Opens tcp (open_transport smol from_secs tcp remote port cx sched w)
  unfolding open_transport
  open_transport-Opens from_secs sets wakers states tcp remote port cx sched w {s} keeps h =
      let s1 = smol.set_timeout (some (from_secs 3600)) s in
      let w1 = settled smol tcp.io s1 w.net.iface w in
      let h1 = settled-Holds smol sets tcp.io s1 w.net.iface w h in
      let s2 = smol.set_keep_alive (some (from_secs 1200)) s1 in
      let w2 = settled smol tcp.io s2 w1.net.iface w1 in
      let h2 = settled-Holds smol sets tcp.io s2 w1.net.iface w1 h1 in
      let (w3, aborted, shut) = abort_if_lem sets states tcp w2 h2 in
      subst (Opens tcp)
        (sym (
          >>=_lem (set_timeout smol tcp (some (from_secs 3600))) (λ _. after_timeout) w
            (on_socket_lem smol tcp.io (λ s. (tt, smol.set_timeout (some (from_secs 3600)) s)) w h)
          ∙ >>=_lem (set_keep_alive smol tcp (some (from_secs 1200))) (λ _. after_keep_alive) w1
              (on_socket_lem smol tcp.io (λ s. (tt, smol.set_keep_alive (some (from_secs 1200)) s))
                w1 h1)
          ∙ >>=_lem (is_open smol tcp) after_is_open w2
              (with_lem smol tcp.io (λ s _. smol.is_open s) w2 h2)
          ∙ >>=_lem (abort_if smol tcp (smol.is_open s2)) (λ _. last) w2 aborted))
        (connect_shut sets wakers states tcp remote port cx sched w3 keeps shut)
    where
      last : M smol (Option (Result (Unit {0}) ConnectError))
      last = connect smol tcp remote port cx sched

      after_is_open : Bool → M smol (Option (Result (Unit {0}) ConnectError))
      after_is_open left_open = abort_if smol tcp left_open >>= λ _. last

      after_keep_alive : M smol (Option (Result (Unit {0}) ConnectError))
      after_keep_alive = is_open smol tcp >>= after_is_open

      after_timeout : M smol (Option (Result (Unit {0}) ConnectError))
      after_timeout = set_keep_alive smol tcp (some (from_secs 1200)) >>= λ _. after_keep_alive
