-- ===== src/Mqtt/Acknowledged.antt =====
-- The subscription of src/mqtt.rs comes to its end once the broker acknowledges it.
use mathlib.Core.Path.{subst}
use ra6m3_rtic.Prelude.{
  ℕ, zero, suc, ◌≤◌, ◌<◌, ◌≡◌, refl, sym, Bool, true, false, Option, none, some, Result, ok, err,
  if◌then◌else◌, arith,
}
use ra6m3_rtic.Smoltcp.{Smoltcp}
use ra6m3_rtic.PollShare.{World, M, pure, ◌>>=◌, >>=_lem}
use ra6m3_rtic.Socket.Types.{SocketInner}
use ra6m3_rtic.Socket.Lifecycle.{Held}
use ra6m3_rtic.Mqtt.Subscribe.{Minimq, Outcome, after_poll, poll_until, after_subscribe, subscribe}

module _ (smol : Smoltcp) {E : Type 0} (minimq : Minimq smol E) where
  -- The broker acknowledges in time: each poll of a pending operation fails or comes closer to the
  -- acknowledgement, which is at most `bound` polls away; the calls keep the socket in place.
  pub record Acknowledges (io : SocketInner smol) (bound : ℕ) : Type 0 where
    pub left : minimq.Operation → minimq.Connection → ℕ
    pub subscribes :
        (conn : minimq.Connection) (w : World smol)
        → Held smol io w
        → (r : Result minimq.Operation E) × (conn' : minimq.Connection) × (w' : World smol)
          × (minimq.subscribe conn w ≡ some ((r, conn'), w'))
          × Held smol io w'
          × ((sub : minimq.Operation) → r ≡ ok sub → left sub conn' ≤ bound)
    pub polls :
        (sub : minimq.Operation) (conn : minimq.Connection) (w : World smol)
        → Held smol io w
        → minimq.is_pending sub conn ≡ true
        → (r : Result (Unit {0}) E) × (conn' : minimq.Connection) × (w' : World smol) × (minimq.poll
              conn w
            ≡ some ((r, conn'), w'))
          × Held smol io w'
          × (r ≡ ok tt → left sub conn' < left sub conn)

  -- The loop for `sub` has ended, with the socket in place, and without an error only when this
  -- operation is not pending any more on the connection that is left.
  abbrev pub Over :
      SocketInner smol → minimq.Operation → Option (Outcome smol minimq × World smol) → Type 0
  Over io sub none = ⊥
  Over io sub (some ((none, conn), w)) = ⊥
  Over io sub (some ((some none, conn), w)) = (minimq.is_pending sub conn ≡ false) × Held smol io w
  Over io sub (some ((some (some e), conn), w)) = Held smol io w

  -- How the subscription ends, from what `subscribe` of minimq returned: an error is passed on at
  -- once, and an operation is waited for.
  abbrev pub Ended :
      SocketInner smol
      → Result minimq.Operation E
      → Option (Outcome smol minimq × World smol)
      → Type 0
  Ended io (ok sub) o = Over io sub o
  Ended io (err e) none = ⊥
  Ended io (err e) (some ((none, conn), w)) = ⊥
  Ended io (err e) (some ((some none, conn), w)) = ⊥
  Ended io (err e) (some ((some (some e'), conn), w)) = (e' ≡ e) × Held smol io w

  module _ (io : SocketInner smol) (bound : ℕ) (broker : Acknowledges io bound) where
    after_poll-Over :
        (again : minimq.Connection → M smol (Outcome smol minimq)) (r : Result (Unit {0}) E)
        (sub : minimq.Operation) (conn : minimq.Connection) (w : World smol)
        → Held smol io w
        → (r ≡ ok tt → Over io sub (again conn w))
        → Over io sub (after_poll smol minimq again (r, conn) w)
    after_poll-Over again (ok tt) sub conn w h k = k refl
    after_poll-Over again (err e) sub conn w h k = h

    test-Over :
        (b : Bool) (again : minimq.Connection → M smol (Outcome smol minimq))
        (sub : minimq.Operation) (conn : minimq.Connection) (w : World smol)
        → minimq.is_pending sub conn ≡ b
        → Held smol io w
        → (minimq.is_pending sub conn ≡ true
            → Over io sub ((minimq.poll conn >>= after_poll smol minimq again) w))
        → Over io sub (
            (if b
                then minimq.poll conn >>= after_poll smol minimq again
                else pure (some none, conn))
              w)
    test-Over true again sub conn w e h k = k e
    test-Over false again sub conn w e h k = (e, h)

    poll_until-Over :
        (n : ℕ) (sub : minimq.Operation) (conn : minimq.Connection) (w : World smol)
        → broker.left sub conn < n
        → Held smol io w
        → Over io sub (poll_until smol minimq n sub conn w)
    unfolding poll_until
    poll_until-Over zero sub conn w few h = absurd (omega arith)
    poll_until-Over (suc n) sub conn w few h =
        test-Over (minimq.is_pending sub conn) (poll_until smol minimq n sub) sub conn w refl h
          λ waits.
            let (r, conn', w', e, h', closer) = broker.polls sub conn w h waits in
            subst (Over io sub)
              (sym (
                >>=_lem (minimq.poll conn) (after_poll smol minimq (poll_until smol minimq n sub)) w
                  e))
              (after_poll-Over (poll_until smol minimq n sub) r sub conn' w' h'
                λ went. poll_until-Over n sub conn' w' (omega (arith, closer went)) h')

    after_subscribe-Ended :
        (r : Result minimq.Operation E) (conn : minimq.Connection) (w : World smol)
        → Held smol io w
        → ((sub : minimq.Operation) → r ≡ ok sub → broker.left sub conn ≤ bound)
        → Ended io r (after_subscribe smol minimq (suc bound) (r, conn) w)
    after_subscribe-Ended (ok sub) conn w h few =
        poll_until-Over (suc bound) sub conn w (omega (arith, few sub refl)) h
    after_subscribe-Ended (err e) conn w h few = (refl, h)

  -- If the broker acknowledges the subscription after at most `bound` successful polls, `bound + 1`
  -- calls of `poll` are enough for the loop, which does not panic. Where minimq's `subscribe` fails,
  -- its error is returned; where it returns an operation, this operation is not pending any more on
  -- the connection that is left, or an error is returned. The calls of minimq return and keep the
  -- socket in place.
  pub subscribe-Ended :
      (io : SocketInner smol) (bound : ℕ) (broker : Acknowledges io bound)
      (conn : minimq.Connection) (w : World smol)
      → Held smol io w
      → (r : Result minimq.Operation E) × (conn' : minimq.Connection) × (w' : World smol)
        × (minimq.subscribe conn w ≡ some ((r, conn'), w'))
        × Ended io r (subscribe smol minimq (suc bound) conn w)
  unfolding subscribe
  subscribe-Ended io bound broker conn w h =
      let (r, conn', w', e, h', few) = broker.subscribes conn w h in
      (
        r,
        conn',
        w',
        e,
        subst (Ended io r)
            (sym (>>=_lem (minimq.subscribe conn) (after_subscribe smol minimq (suc bound)) w e))
            (after_subscribe-Ended io bound broker r conn' w' h' few),
      )
