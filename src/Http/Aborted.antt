-- ===== src/Http/Aborted.antt =====
-- The abort of src/socket.rs for picoserve, in the time that src/http.rs gives it.
use mathlib.Core.Path.{subst}
use ra6m3_rtic.Prelude.{ℕ, ◌+◌, ◌≤◌, ◌≡◌, refl, sym, ap, Option, none, some, Result, ok, err, arith}
use ra6m3_rtic.Smoltcp.{Smoltcp}
use ra6m3_rtic.PollShare.{World, M, >>=_lem}
use ra6m3_rtic.Future.{Poll, stateless}
use ra6m3_rtic.Socket.Types.{Error, SocketInner, TcpSocket}
use ra6m3_rtic.Socket.Inner.{poll_flush}
use ra6m3_rtic.Socket.Tcp.{abort}
use ra6m3_rtic.Socket.Frame.{SetLaws, Holds, settled, on_socket_lem, settled-Holds}
use ra6m3_rtic.Socket.Laws.{WakerLaws, StateLaws}
use ra6m3_rtic.Socket.Flush.{Closed, Reset, Aborts, flush-Progress}
use ra6m3_rtic.Http.Timer.{Time, TimeLaws, TimeoutError, timeout_error, run_with_timeout}
use ra6m3_rtic.Http.Clock.{Timed, Driven}
use ra6m3_rtic.Http.Expiry.{deadline}
use ra6m3_rtic.Http.Within.{
  Always, Within, OrLate, drive-Within, run_with_timeout-Progress, run_with_timeout-Answers,
}
use ra6m3_rtic.Http.Closing.{Timeouts, timeouts, write_result, timed_flush, timed_abort}
use ra6m3_rtic.Http.Closing

module _ {smol : Smoltcp} where
  -- There is an answer by the limit, and it is one of `abort`.
  abbrev pub AbortsBy : SocketInner smol → ℕ → Option (Closing.Closed smol × World smol) → Type 0
  AbortsBy io limit none = ⊥
  AbortsBy io limit (some ((none, at), w)) = ⊥
  AbortsBy io limit (some ((some r, (t, rest)), w)) = Aborts smol io (some (r, w)) × (t ≤ limit)

  -- A flush that was answered has sent the RST.
  abbrev Sent : SocketInner smol → Result (Unit {0}) Error → Unit {0} → World smol → Type 0
  Sent io r _ w = (r ≡ ok tt) × Reset smol io w

  write_result-AbortsBy :
      (io : SocketInner smol) (limit : ℕ)
      (r : Option
        (Driven smol (Result (Result (Unit {0}) Error) TimeoutError) (Unit {0}) × World smol))
      → Within
          (Closed smol io)
          (Always (Closed smol io))
          (OrLate (Closed smol io) (Sent io))
          limit
          r
      → AbortsBy io limit (elim r [
        | none ↦ none
        | some (((a, _), at), w) ↦
            some ((elim a [ none ↦ none | some b ↦ some (write_result b) ], at), w)
      ])
  write_result-AbortsBy io limit none h = h
  write_result-AbortsBy io limit (some (((none, x), at), w)) h = h
  write_result-AbortsBy io limit (some (((some (ok (ok _)), x), (t, rest)), w)) (h, soon, always) =
      (h.1, soon)
  write_result-AbortsBy io limit (some (((some (ok (err e)), x), (t, rest)), w)) (h, soon, always) =
      cc
  write_result-AbortsBy io limit (some (((some (err timeout_error), x), (t, rest)), w))
        (h, soon, always) =
      ((refl, h), soon)

  -- Under the timeouts of the HTTP task `abort` does not panic and it returns at the latest 5000 ms,
  -- in the ticks of embassy-time, behind its start: `Ok` only when the connection is closed and its
  -- RST was sent, so that no peer is left, else the write timeout. picoserve and embassy-time keep
  -- to their documentation, and the changes between the polls keep the socket closed.
  pub timed_abort-AbortsBy :
      SetLaws smol
      → WakerLaws smol
      → StateLaws smol
      → (time : Time smol) → TimeLaws time
      → (sock : TcpSocket smol) (cx : smol.Waker) (start : ℕ) (sched : Timed smol) (w : World smol)
        (s : smol.Socket)
      → Always (Closed smol sock.io) sched
      → Holds smol sock.io s w
      → AbortsBy sock.io
          (start + time.embassy_from_millis 5000)
          (timed_abort time (timeouts time) sock cx start sched w)
  unfolding timed_abort timed_flush timeouts
  timed_abort-AbortsBy sets wakers states time laws sock cx start sched w s always h =
      let io = sock.io in
      let J : World smol → Type 0 = Closed smol io in
      let limits : Timeouts time = timeouts time in
      let p : Unit {0} → M smol (Poll (Result (Unit {0}) Error) × Unit {0}) =
        stateless (poll_flush smol io cx) in
      let end = deadline time limits.write start in
      let w' : World smol = settled smol io (smol.abort s) w.net.iface w in
      let progress = flush-Progress smol sets wakers states io cx in
      subst (λ n. AbortsBy io (start + n) (timed_abort time limits sock cx start sched w))
        (ap time.embassy_from_millis (laws.millis 5000))
        (subst (AbortsBy io end)
          (sym (
            >>=_lem (abort smol sock) (λ _. timed_flush time limits io cx start sched) w
              (on_socket_lem smol io (λ s. (tt, smol.abort s)) w h)))
          (write_result-AbortsBy io end _ (
            drive-Within J (Always J) (OrLate J (Sent io))
              (run_with_timeout time limits.write p start) end
              (λ now x v k.
                run_with_timeout-Progress J (Sent io) time laws p limits.write start x v
                  (progress x v k) now)
              (λ x v k.
                run_with_timeout-Answers J (Sent io) time laws p limits.write start x v
                  (progress x v k))
              (λ t env rest k. k) start tt sched w' always (omega arith)
              (
                smol.abort s,
                settled-Holds smol sets io (smol.abort s) w.net.iface w h,
                states.abort_state s,
              ))))
