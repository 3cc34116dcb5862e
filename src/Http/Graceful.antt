-- ===== src/Http/Graceful.antt =====
-- How the graceful shutdown of src/socket.rs ends, whatever the client does.
use mathlib.Core.Path.{subst}
use ra6m3_rtic.Prelude.{
  ◌≡◌, ◌⊎◌, refl, sym, Bool, true, false, Option, none, some, Result, ok, err, inl, inr,
}
use ra6m3_rtic.Smoltcp.{Smoltcp}
use ra6m3_rtic.PollShare.{World, M, pure, ◌>>=◌, >>=_lem}
use ra6m3_rtic.Future.{Poll, ready, pending, Schedule, await, stateless}
use ra6m3_rtic.Future.Laws.{Progress, Keeps, Waits, await-Waits}
use ra6m3_rtic.Socket.Types.{Error, SocketInner, TcpSocket}
use ra6m3_rtic.Socket.Inner.{poll_flush}
use ra6m3_rtic.Socket.Tcp.{close}
use ra6m3_rtic.Socket.Io.{
  ServeError, read_timeout, write_timeout, read, poll_drain, after_discard, after_flush,
  after_drain, flush_result, flush_with_timeout, shutdown,
}
use ra6m3_rtic.Socket.Frame.{SetLaws, Holds, settled, on_socket_lem, settled-Holds}
use ra6m3_rtic.Socket.Lifecycle.{Held}
use ra6m3_rtic.Socket.Flush.{IsFlushed, poll_flush_lem}

module _ (smol : Smoltcp) where
  -- The socket is in its place with nothing outstanding.
  abbrev pub Flushed : SocketInner smol → World smol → Type 0
  Flushed io w = (s : smol.Socket) × Holds smol io s w × IsFlushed smol s

  -- What picoserve reads to the end neither panics nor takes the socket away.
  abbrev pub Discards :
      {X : Type 0} → SocketInner smol → (X → M smol (Poll (Result (Unit {0}) Error) × X)) → Type 0
  Discards {X} io discard =
      (x : X) (w : World smol)
      → Held smol io w
      → Progress (λ _ w. Held smol io w) (λ _ _ w. Held smol io w) (discard x w)

  -- An error of the shutdown is one of its two timeouts, or that of a read.
  abbrev pub IsExpected : ServeError → Type 0
  IsExpected e = (e ≡ read_timeout) ⊎ (e ≡ write_timeout) ⊎ ((cause : Error) × (e ≡ read cause))

  abbrev pub Finishes :
      SocketInner smol → Option (Result (Unit {0}) ServeError × World smol) → Type 0
  Finishes io none = ⊥
  Finishes io (some (ok _, w)) = Flushed io w
  Finishes io (some (err e, w)) = IsExpected e × Held smol io w

  -- The answers of the `or`: an error is one of a read.
  abbrev pub Drained : SocketInner smol → Result (Unit {0}) ServeError → World smol → Type 0
  Drained io (ok _) w = Held smol io w
  Drained io (err e) w = ((cause : Error) × (e ≡ read cause)) × Held smol io w

  module _ (sets : SetLaws smol) (io : SocketInner smol) (cx : smol.Waker) where
    -- One poll of `flush` on the socket, whatever its state.
    flush-Progress :
        (x : Unit {0}) (w : World smol)
        → Held smol io w
        → Progress
            (λ _ w. Held smol io w)
            (λ r _ w. (r ≡ ok tt) × Flushed io w)
            (stateless (poll_flush smol io cx) x w)
    flush-Progress x w (s, h) = elim (poll_flush_lem smol io cx w h) [
      | inl (done, e) ↦
          subst (Progress (λ _ w. Held smol io w) (λ r _ w. (r ≡ ok tt) × Flushed io w))
            (sym (>>=_lem (poll_flush smol io cx) (λ r. pure (r, x)) w e))
            (refl, (s, settled-Holds smol sets io s w.net.iface w h, done))
      | inr (_, e) ↦
          subst (Progress (λ _ w. Held smol io w) (λ r _ w. (r ≡ ok tt) × Flushed io w))
            (sym (>>=_lem (poll_flush smol io cx) (λ r. pure (r, x)) w e))
            (
              smol.register_send_waker cx s,
              settled-Holds smol sets io (smol.register_send_waker cx s) w.net.iface w h,
            )
    ]

    timed_flush-Finishes :
        (r : Option ((Option (Result (Unit {0}) Error) × Unit {0}) × World smol))
        → Waits (λ _ w. Held smol io w) (λ r _ w. (r ≡ ok tt) × Flushed io w) r
        → Finishes io (elim r [ none ↦ none | some ((r', _), w') ↦ some (flush_result r', w') ])
    timed_flush-Finishes none h = h
    timed_flush-Finishes (some ((none, _), w)) h = (inr (inl refl), h)
    timed_flush-Finishes (some ((some (ok _), _), w)) h = h.1
    timed_flush-Finishes (some ((some (err e), _), w)) h = cc

    -- The last flush, under the write timeout.
    flush_with_timeout-Finishes :
        (writing : Schedule smol) (w : World smol)
        → Keeps (λ (_ : Unit {0}) w. Held smol io w) writing
        → Held smol io w
        → Finishes io (flush_with_timeout smol io cx writing w)
    unfolding flush_with_timeout
    flush_with_timeout-Finishes writing w keeps h = timed_flush-Finishes _ (
        await-Waits (λ _ w. Held smol io w) (λ r _ w. (r ≡ ok tt) × Flushed io w)
          (stateless (poll_flush smol io cx)) tt writing w flush-Progress keeps h)

    -- The second side of the `or` never ends with an answer, since a flush has no error.
    after_flush-Progress :
        {X : Type 0} (x : X) (w : World smol)
        → Held smol io w
        → Progress
            (λ (_ : X × Bool) w. Held smol io w)
            (λ r _ w. Drained io r w)
            (after_flush smol x (poll_flush smol io cx w))
    after_flush-Progress {X} x w (s, h) = elim (poll_flush_lem smol io cx w h) [
      | inl (_, e) ↦
          subst
            (λ p.
              Progress (λ (_ : X × Bool) w. Held smol io w) (λ r _ w. Drained io r w)
                (after_flush smol x p))
            (sym e) (s, settled-Holds smol sets io s w.net.iface w h)
      | inr (_, e) ↦
          subst
            (λ p.
              Progress (λ (_ : X × Bool) w. Held smol io w) (λ r _ w. Drained io r w)
                (after_flush smol x p))
            (sym e)
            (
              smol.register_send_waker cx s,
              settled-Holds smol sets io (smol.register_send_waker cx s) w.net.iface w h,
            )
    ]

    after_discard-Progress :
        {X : Type 0} (flushed : Bool)
        (r : Option ((Poll (Result (Unit {0}) Error) × X) × World smol))
        → Progress (λ _ w. Held smol io w) (λ _ _ w. Held smol io w) r
        → Progress
            (λ (_ : X × Bool) w. Held smol io w)
            (λ r _ w. Drained io r w)
            (after_discard smol io cx flushed r)
    after_discard-Progress flushed none h = h
    after_discard-Progress flushed (some ((ready (ok _), x), w)) h = h
    after_discard-Progress flushed (some ((ready (err e), x), w)) h = ((e, refl), h)
    after_discard-Progress true (some ((pending, x), w)) h = h
    after_discard-Progress false (some ((pending, x), w)) h = after_flush-Progress x w h

    module _ (writing : Schedule smol)
        (keeps : Keeps (λ (_ : Unit {0}) w. Held smol io w) writing) where
      after_drain-Finishes :
          {X : Type 0} (r : Option ((Option (Result (Unit {0}) ServeError) × X) × World smol))
          → Waits (λ _ w. Held smol io w) (λ r _ w. Drained io r w) r
          → Finishes io
              (elim r [ none ↦ none | some ((r', _), w') ↦ after_drain smol io cx writing r' w' ])
      after_drain-Finishes none h = h
      after_drain-Finishes (some ((none, _), w)) h = (inl refl, h)
      after_drain-Finishes (some ((some (ok _), _), w)) h =
          flush_with_timeout-Finishes writing w keeps h
      after_drain-Finishes (some ((some (err e), _), w)) (why, h) = (inr (inr why), h)

  -- Whatever the client does, `shutdown` does not panic, and it returns at the latest when the two
  -- schedules end, which are its two timeouts. It returns `Ok` only with nothing outstanding, so
  -- that no data can still be sent, no FIN is unacknowledged and no RST unsent; its errors are the
  -- two timeouts and those of a read. The changes between the polls, and what picoserve reads, keep
  -- the socket in place.
  pub shutdown-Finishes :
      {X : Type 0}
      → SetLaws smol
      → (sock : TcpSocket smol) (cx : smol.Waker)
      → (discard : X → M smol (Poll (Result (Unit {0}) Error) × X)) (x : X)
      → (reading writing : Schedule smol) (w : World smol) → Discards sock.io discard
      → Keeps (λ (_ : X × Bool) w. Held smol sock.io w) reading
      → Keeps (λ (_ : Unit {0}) w. Held smol sock.io w) writing
      → Held smol sock.io w
      → Finishes sock.io (shutdown smol sock cx discard x reading writing w)
  unfolding shutdown poll_drain
  shutdown-Finishes sets sock cx discard x reading writing w discards keeps stays (s, h) =
      let io = sock.io in
      let w' : World smol = settled smol io (smol.close s) w.net.iface w in
      subst (Finishes io)
        (sym (
          >>=_lem (close smol sock)
            (λ _. await (poll_drain smol io cx discard) (x, false) reading >>= λ r.
              after_drain smol io cx writing r.0)
            w (on_socket_lem smol io (λ s. (tt, smol.close s)) w h)))
        (after_drain-Finishes sets io cx writing stays _ (
          await-Waits (λ _ w. Held smol io w) (λ r _ w. Drained io r w)
            (poll_drain smol io cx discard) (x, false) reading w'
            (λ (y, flushed) v k.
              after_discard-Progress sets io cx flushed (discard y v) (discards y v k))
            keeps (smol.close s, settled-Holds smol sets io (smol.close s) w.net.iface w h)))
