-- ===== src/Mqtt/Turns.antt =====
-- How a session of the outer loop of src/mqtt.rs ends: without a panic, and with the socket in place.
use mathlib.Core.Path.{subst}
use ra6m3_rtic.Prelude.{
  ℕ, zero, suc, if◌then◌else◌, ◌≡◌, sym, Bool, true, false, Option, none, some, Result, ok, err,
}
use ra6m3_rtic.Smoltcp.{Smoltcp}
use ra6m3_rtic.PollShare.{World, M, pure, ◌>>=◌, >>=_lem}
use ra6m3_rtic.Future.Laws.{Keeps}
use ra6m3_rtic.Socket.Types.{SocketInner}
use ra6m3_rtic.Socket.Lifecycle.{Held, Connecting, IsSynchronized, InState}
use ra6m3_rtic.Mqtt.Echo.{Heapless, Outcome, panicked, receiving, failed, recv_loop}
use ra6m3_rtic.Mqtt.Survival.{AllShort, Survives, recv_loop-Survives}
use ra6m3_rtic.Mqtt.Subscribe
use ra6m3_rtic.Mqtt.Subscribe.{Minimq, after_poll, poll_until, subscribe}
use ra6m3_rtic.Mqtt.Session.{Turn, after_loop, after_subscribe, after_session_connect, run_session}

module _ (smol : Smoltcp) (from_secs : ℕ → smol.Duration) (heapless : Heapless) {E : Type 0}
    (minimq : Minimq smol E) (disconnected : E) where
  -- A call of minimq returns, with the socket in place, when it is made on a socket of `P`.
  abbrev pub Responds : {A : Type 0} → (World smol → Type 0) → SocketInner smol → M smol A → Type 0
  Responds {A} P io m =
      (w : World smol) → P w → (r : A) × (w' : World smol) × (m w ≡ some (r, w')) × Held smol io w'

  -- A turn in which the network and minimq keep the socket in place, and the messages are short.
  pub record Behaves (io : SocketInner smol) (t : Turn smol minimq) : Type 0 where
    pub backs_off : (w : World smol) → Held smol io w → Held smol io (t.backing_off w)
    pub shakes : Keeps (λ (_ : Unit {0}) w. Connecting smol io w) t.handshake
    pub connects : Responds (InState smol IsSynchronized io) io t.connected
    pub subscribes : (conn : minimq.Connection) → Responds (Held smol io) io (minimq.subscribe conn)
    pub polls : (conn : minimq.Connection) → Responds (Held smol io) io (minimq.poll conn)
    pub is_short : AllShort t.rounds
    pub carries_on : (w : World smol) → Held smol io w → Held smol io (t.during w)
    pub leaves : Keeps (λ (_ : Unit {0}) w. Held smol io w) t.leaving

  -- The session came to an end, or still receives, with the socket in place.
  abbrev pub Ended : {A : Type 0} → SocketInner smol → Option (A × World smol) → Type 0
  Ended io none = ⊥
  Ended io (some (r, w)) = Held smol io w

  after_loop-Ended :
      (io : SocketInner smol) (o : Outcome E) (w : World smol)
      → Survives o
      → Held smol io w
      → Ended io (after_loop smol from_secs heapless minimq disconnected o w)
  after_loop-Ended io panicked w s h = absurd s
  after_loop-Ended io (receiving replies) w s h = h
  after_loop-Ended io (failed e replies) w s h = h

  -- The subscription with its loop.
  module _ (io : SocketInner smol) (t : Turn smol minimq) (b : Behaves io t) where
    after_poll-Ran :
        (again : minimq.Connection → M smol (Subscribe.Outcome smol minimq))
        (r : Result (Unit {0}) E × minimq.Connection) (w : World smol)
        → ((conn : minimq.Connection) (w : World smol) → Held smol io w → Ended io (again conn w))
        → Held smol io w
        → Ended io (after_poll smol minimq again r w)
    after_poll-Ran again (ok _, conn) w k h = k conn w h
    after_poll-Ran again (err e, conn) w k h = h

    test-Ran :
        (pending : Bool) (m k : M smol (Subscribe.Outcome smol minimq)) (w : World smol)
        → Ended io (m w)
        → Ended io (k w)
        → Ended io ((if pending then m else k) w)
    test-Ran true m k w h i = h
    test-Ran false m k w h i = i

    poll_until-Ran :
        (n : ℕ) (sub : minimq.Operation) (conn : minimq.Connection) (w : World smol)
        → Held smol io w
        → Ended io (poll_until smol minimq n sub conn w)
    unfolding poll_until
    poll_until-Ran zero sub conn w h = h
    poll_until-Ran (suc n) sub conn w h =
        let again = poll_until smol minimq n sub in
        let (r, w', e, h') = b.polls conn w h in
        test-Ran (minimq.is_pending sub conn) (minimq.poll conn >>= after_poll smol minimq again)
          (pure (some none, conn)) w
          (subst (Ended io) (sym (>>=_lem (minimq.poll conn) (after_poll smol minimq again) w e))
            (after_poll-Ran again r w' (λ c v k. poll_until-Ran n sub c v k) h'))
          h

    ordered-Ran :
        (n : ℕ) (r : Result minimq.Operation E × minimq.Connection) (w : World smol)
        → Held smol io w
        → Ended io (Subscribe.after_subscribe smol minimq n r w)
    ordered-Ran n (ok sub, conn) w h = poll_until-Ran n sub conn w h
    ordered-Ran n (err e, conn) w h = h

    subscribe-Ran :
        (n : ℕ) (conn : minimq.Connection) (w : World smol)
        → Held smol io w
        → Ended io (subscribe smol minimq n conn w)
    unfolding subscribe
    subscribe-Ran n conn w h =
        let (r, w', e, h') = b.subscribes conn w h in
        subst (Ended io)
          (sym (>>=_lem (minimq.subscribe conn) (Subscribe.after_subscribe smol minimq n) w e))
          (ordered-Ran n r w' h')

    after_subscribe-Ended :
        (o : Option (Subscribe.Outcome smol minimq × World smol))
        → Ended io o
        → Ended io (after_subscribe smol from_secs heapless minimq disconnected t o)
    after_subscribe-Ended none h = h
    after_subscribe-Ended (some ((none, conn), w)) h = h
    after_subscribe-Ended (some ((some (some e), conn), w)) h = h
    after_subscribe-Ended (some ((some none, conn), w)) h =
        after_loop-Ended io (recv_loop heapless disconnected t.rounds) (t.during w)
          (recv_loop-Survives heapless disconnected t.rounds b.is_short) (b.carries_on w h)

    after_session_connect-Ended :
        (r : Result minimq.Connection E) (w : World smol)
        → Held smol io w
        → Ended io
            (after_session_connect smol from_secs heapless minimq disconnected t (some (r, w)))
    after_session_connect-Ended (err e) w h = h
    after_session_connect-Ended (ok conn) w h =
        after_subscribe-Ended _ (subscribe-Ran t.polls conn w h)

  pub run_session-Ended :
      (io : SocketInner smol) (t : Turn smol minimq) (w : World smol)
      → Behaves io t
      → InState smol IsSynchronized io w
      → Ended io (run_session smol from_secs heapless minimq disconnected t w)
  unfolding run_session
  run_session-Ended io t w b h =
      let (r, w', came, h') = b.connects w h in
      subst (λ o. Ended io (after_session_connect smol from_secs heapless minimq disconnected t o))
        (sym came) (after_session_connect-Ended io t b r w' h')
