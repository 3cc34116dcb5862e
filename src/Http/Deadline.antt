-- ===== src/Http/Deadline.antt =====
-- The graceful shutdown of src/socket.rs ends in the time that src/http.rs gives it.
use ra6m3_rtic.Prelude.{ℕ, ◌+◌, ◌≤◌, ◌≡◌, ap, arith, Result}
use ra6m3_rtic.Smoltcp.{Smoltcp}
use ra6m3_rtic.PollShare.{World, M}
use ra6m3_rtic.Future.{Poll}
use ra6m3_rtic.Socket.Types.{Error, SocketInner, TcpSocket}
use ra6m3_rtic.Socket.Frame.{SetLaws, settled-Holds}
use ra6m3_rtic.Socket.Lifecycle.{Held}
use ra6m3_rtic.Http.Timer.{Time, TimeLaws}
use ra6m3_rtic.Http.Clock.{Timed}
use ra6m3_rtic.Http.Expiry.{deadline}
use ra6m3_rtic.Http.Within.{Always}
use ra6m3_rtic.Http.Graceful.{Flushed}
use ra6m3_rtic.Http.Flushing.{flushes}
use ra6m3_rtic.Http.Phases.{EndsBy, Read, Phases, phases-EndsBy}
use ra6m3_rtic.Http.Closing.{timeouts, timed_shutdown}
use ra6m3_rtic.Future.Laws.{Progress}

-- The deadlines of the two timers, one behind the other.
pub by_limit :
    {smol : Smoltcp} (time : Time smol)
    → TimeLaws time
    → (t start : ℕ) → t ≤ deadline time (time.from_millis 1000) start
    → deadline time (time.from_millis 5000) t
      ≤ start + time.embassy_from_millis 1000 + time.embassy_from_millis 5000
by_limit time laws t start soon =
    let millis : (n : ℕ)
        → time.embassy_from_millis (time.as_millis (time.from_millis n))
          ≡ time.embassy_from_millis n =
      λ n. ap time.embassy_from_millis (laws.millis n) in
    omega (arith, soon, millis 1000, millis 5000)

module _ {smol : Smoltcp} (sets : SetLaws smol) (io : SocketInner smol) (cx : smol.Waker) where
  held_phases : Phases io cx (Held smol io) (Held smol io) (Flushed smol io)
  held_phases = record {
    reading_held = λ w h. h;
    flushing_held = λ w h. h;
    flush_reading = λ w (s, h).
        flushes io cx w h (λ done. (s, settled-Holds smol sets io s w.net.iface w h))
          (
            smol.register_send_waker cx s,
            settled-Holds smol sets io (smol.register_send_waker cx s) w.net.iface w h,
          );
    flush_flushing = λ w (s, h).
        flushes io cx w h (λ done. (s, settled-Holds smol sets io s w.net.iface w h, done))
          (
            smol.register_send_waker cx s,
            settled-Holds smol sets io (smol.register_send_waker cx s) w.net.iface w h,
          );
  }

-- Whatever the client does: under the timeouts of the HTTP task, `shutdown` does not panic and it
-- returns at the latest 1000 ms and 5000 ms, in the ticks of embassy-time, behind its start. It
-- returns `Ok` only with nothing outstanding; its errors are the two timeouts and those of a read.
-- picoserve and embassy-time keep to their documentation, and the changes between the polls, and
-- what picoserve reads, keep the socket in place.
pub timed_shutdown-Flushed :
    {smol : Smoltcp} {X : Type 0}
    → SetLaws smol
    → (time : Time smol) → TimeLaws time
    → (sock : TcpSocket smol) (cx : smol.Waker)
    → (discard : X → M smol (Poll (Result (Unit {0}) Error) × X)) (x : X) (start : ℕ)
      (sched : Timed smol) (w : World smol)
    → ((x : X) (w : World smol)
        → Held smol sock.io w
        → Progress
            (λ _ w. Held smol sock.io w)
            (Read (Held smol sock.io) (Held smol sock.io))
            (discard x w))
    → Always (Held smol sock.io) sched
    → Held smol sock.io w
    → EndsBy
        (Flushed smol sock.io)
        sock.io
        (start + time.embassy_from_millis 1000 + time.embassy_from_millis 5000)
        (timed_shutdown time (timeouts time) sock cx discard x start sched w)
unfolding timeouts
timed_shutdown-Flushed {smol} sets time laws sock cx discard x start sched w discards always
      (s, h) =
    phases-EndsBy (held_phases sets sock.io cx) time laws (timeouts time) discard discards start _ x
      sched w (λ t soon. by_limit time laws t start soon) always always h
      (smol.close s, settled-Holds smol sets sock.io (smol.close s) w.net.iface w h)
