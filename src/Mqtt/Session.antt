-- ===== src/Mqtt/Session.antt =====
-- src/mqtt.rs: the outer loop of `mqtt`. The session of minimq is a parameter: what its calls do to
-- the store, and their errors, whose type is `E`. The awaited calls of minimq return.
use ra6m3_rtic.Prelude.{ℕ, Bool, true, false, Option, none, some, List, [], ◌∷◌, Result, ok, err}
use ra6m3_rtic.Smoltcp.{Smoltcp}
use ra6m3_rtic.PollShare.{World, M}
use ra6m3_rtic.Future.{Schedule}
use ra6m3_rtic.Socket.Types.{ConnectError, TcpSocket, new}
use ra6m3_rtic.Socket.Tcp.{disconnect}
use ra6m3_rtic.Mqtt.Backoff.{Attempts, Readings}
use ra6m3_rtic.Mqtt.Transport.{connect_transport}
use ra6m3_rtic.Mqtt.Subscribe
use ra6m3_rtic.Mqtt.Subscribe.{Minimq, subscribe}
use ra6m3_rtic.Mqtt.Echo.{Heapless, Round, Outcome, panicked, receiving, failed, recv_loop}

-- What the loop logs: the transport could not be opened, or a session ended.
pub data Log (E : Type 0) : Type 0 where
  transport_failed : ConnectError → Log E
  session_failed : E → Log E

-- One turn of the loop as the world around the task makes it.
pub record Turn (smol : Smoltcp) {E : Type 0} (minimq : Minimq smol E) : Type 0 where
  pub readings : Readings
  -- the changes during the backoff, and while `connect` waits
  pub backing_off : World smol → World smol
  pub handshake : Schedule smol
  -- `session.connect(io)`
  pub connected : M smol (Result minimq.Connection E)
  -- how many polls of the subscription there is time for
  pub polls : ℕ
  -- what the connection delivers, and what happens to the store meanwhile
  pub rounds : List (Round E)
  pub during : World smol → World smol
  -- the changes while `disconnect` waits
  pub leaving : Schedule smol

module _ (smol : Smoltcp) (from_secs : ℕ → smol.Duration) (heapless : Heapless) {E : Type 0}
    (minimq : Minimq smol E) (disconnected : E) where
  -- How the `try` block ends, with `conn` set or not: `none` if the task still waits for
  -- minimq.
  abbrev pub after_loop : Outcome E → M smol (Option (Bool × E))
  after_loop panicked w = none
  after_loop (receiving replies) w = some (none, w)
  after_loop (failed e replies) w = some (some (true, e), w)

  -- After the subscription with its loop, which polls on if it has not ended.
  abbrev pub after_subscribe :
      Turn smol minimq
      → Option (Subscribe.Outcome smol minimq × World smol)
      → Option (Option (Bool × E) × World smol)
  after_subscribe t none = none
  after_subscribe t (some ((none, conn), w)) = some (none, w)
  after_subscribe t (some ((some (some e), conn), w)) = some (some (true, e), w)
  after_subscribe t (some ((some none, conn), w)) =
      after_loop (recv_loop heapless disconnected t.rounds) (t.during w)

  abbrev pub after_session_connect :
      Turn smol minimq
      → Option (Result minimq.Connection E × World smol)
      → Option (Option (Bool × E) × World smol)
  after_session_connect t none = none
  after_session_connect t (some (err e, w)) = some (some (false, e), w)
  after_session_connect t (some (ok conn, w)) =
      after_subscribe t (subscribe smol minimq t.polls conn w)

  -- The `try` block once the transport is open.
  unfoldable pub run_session : Turn smol minimq → M smol (Option (Bool × E))
  unfolding recv_loop subscribe
  run_session t w = after_session_connect t (t.connected w)

  abbrev pub with_log :
      Log E → Option (List (Log E) × World smol) → Option (List (Log E) × World smol)
  with_log log none = none
  with_log log (some (logs, w)) = some (log ∷ logs, w)

  -- After `conn.into_inner().disconnect()`.
  abbrev pub after_disconnect :
      E
      → M smol (List (Log E))
      → Option (Option (Unit {0}) × World smol)
      → Option (List (Log E) × World smol)
  after_disconnect e rest none = none
  after_disconnect e rest (some (none, w)) = some ([], w)
  after_disconnect e rest (some (some _, w)) = with_log (session_failed e) (rest w)

  -- After the `try` block: the connection, if there is one, is disconnected, and the error logged.
  abbrev pub after_session :
      TcpSocket smol
      → smol.Waker
      → Schedule smol
      → M smol (List (Log E))
      → Option (Option (Bool × E) × World smol)
      → Option (List (Log E) × World smol)
  after_session tcp cx leaving rest none = none
  after_session tcp cx leaving rest (some (none, w)) = some ([], w)
  after_session tcp cx leaving rest (some (some (true, e), w)) =
      after_disconnect e rest (disconnect smol tcp cx leaving w)
  after_session tcp cx leaving rest (some (some (false, e), w)) =
      with_log (session_failed e) (rest w)

  -- The `match` on `connect_transport`; `continue` goes on with `rest`.
  abbrev pub after_transport :
      TcpSocket smol
      → smol.Waker
      → Turn smol minimq
      → M smol (List (Log E))
      → Option (Option (Result (Unit {0}) ConnectError) × World smol)
      → Option (List (Log E) × World smol)
  after_transport tcp cx t rest none = none
  after_transport tcp cx t rest (some (none, w)) = some ([], w)
  after_transport tcp cx t rest (some (some (err e), w)) = with_log (transport_failed e) (rest w)
  after_transport tcp cx t rest (some (some (ok _), w)) =
      after_session tcp cx t.leaving rest (run_session t w)

  -- The outer `loop` of `mqtt`, over its turns. The list of the logs ends where the task waits.
  unfoldable pub mqtt :
      smol.SocketHandle
      → smol.IpEndpoint
      → smol.Waker
      → Attempts
      → List (Turn smol minimq)
      → M smol (List (Log E))
  unfolding connect_transport run_session disconnect new
  mqtt handle remote cx a [] w = some ([], w)
  mqtt handle remote cx a (t ∷ ts) w =
      let (a', opened) =
        connect_transport smol from_secs handle remote a t.readings cx t.handshake
          (t.backing_off w) in
      after_transport (new {smol = smol} handle) cx t (mqtt handle remote cx a' ts) opened
