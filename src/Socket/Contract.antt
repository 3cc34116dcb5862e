-- ===== src/Socket/Contract.antt =====
-- The reads and writes of src/socket.rs against the contracts of `embedded_io_async`.
use ra6m3_rtic.Prelude.{
  ℕ, suc, zero, ◌≡◌, ◌≢◌, refl, sym, ◌⊎◌, inl, inr, Bool, true, false, some, List, Result, ok, err,
  arith,
}
use mathlib.Core.Path.{subst}
use ra6m3_rtic.Prelude.Lists.{is_empty}
use ra6m3_rtic.Smoltcp.{Smoltcp, RecvError, SendError}
use ra6m3_rtic.PollShare.{World}
use ra6m3_rtic.Future.{ready, stateless}
use ra6m3_rtic.Future.Laws.{Answers}
use ra6m3_rtic.Socket.Types.{Error, SocketInner}
use ra6m3_rtic.Socket.Inner.{
  poll_read, poll_write, read_outcome, write_outcome, read_step, write_step,
}
use ra6m3_rtic.Socket.Io.{read_ready, write_ready}
use ra6m3_rtic.Socket.Frame.{Holds, on_socket_lem, on_socket-stateless}
use ra6m3_rtic.Socket.Laws.{RecvLaws, SendLaws}

module _ (smol : Smoltcp) where
  -- Only a slice with room that nothing was received into makes a read wait.
  read_outcome-ready :
      (cx : smol.Waker) (b : Bool) (r : Result ℕ RecvError) (s : smol.Socket)
      → ¬ ((b ≡ false) × (r ≡ ok 0))
      → (a : Result ℕ Error) × ((read_outcome smol cx b r s).0 ≡ ready a)
  read_outcome-ready cx true (ok zero) s h = (ok 0, refl)
  read_outcome-ready cx false (ok zero) s h = absurd (h (refl, refl))
  read_outcome-ready cx true (ok (suc n)) s h = (ok (suc n), refl)
  read_outcome-ready cx false (ok (suc n)) s h = (ok (suc n), refl)
  read_outcome-ready cx true (err RecvError.finished) s h = (ok 0, refl)
  read_outcome-ready cx false (err RecvError.finished) s h = (ok 0, refl)
  read_outcome-ready cx true (err RecvError.invalid_state) s h = (err Error.connection_reset, refl)
  read_outcome-ready cx false (err RecvError.invalid_state) s h = (err Error.connection_reset, refl)

  write_outcome-ready :
      (cx : smol.Waker) (r : Result ℕ SendError) (s : smol.Socket)
      → r ≢ ok 0
      → (a : Result ℕ Error) × ((write_outcome smol cx r s).0 ≡ ready a)
  write_outcome-ready cx (ok zero) s h = absurd (h refl)
  write_outcome-ready cx (ok (suc n)) s h = (ok (suc n), refl)
  write_outcome-ready cx (err SendError.invalid_state) s h = (err Error.connection_reset, refl)

  -- `read_ready` answers `true` exactly by these two tests.
  read_ready-tests :
      (io : SocketInner smol) (w : World smol) {s : smol.Socket}
      → Holds smol io s w
      → read_ready smol io w ≡ some (ok true, w)
      → (smol.can_recv s ≡ true) ⊎ (smol.may_recv s ≡ false)
  unfolding read_ready
  read_ready-tests io w h e = ground (arith, h.free, h.found)

  -- If `read_ready` answers `true`, a read polled next is not pending, whatever the slice.
  pub read_ready-read :
      RecvLaws smol
      → (io : SocketInner smol) (cx : smol.Waker) (buf : List ℕ) (w : World smol) {s : smol.Socket}
      → Holds smol io s w
      → read_ready smol io w ≡ some (ok true, w)
      → Answers (poll_read smol io cx buf w)
  unfolding poll_read
  read_ready-read laws io cx buf w {s} h e =
      let (r, buf', s') = smol.recv_slice buf s in
      let (a, answer) = read_outcome-ready cx (is_empty buf) r s' (λ (ne, took).
        let (dry, may) = laws.recv_slice_empty buf s ne took in
        elim (read_ready-tests io w h e) [ inl can ↦ cc | inr shut ↦ cc ]) in
      rw (on_socket_lem smol io (read_step smol cx buf) w h) (rw answer tt)

  write_ready-test :
      (io : SocketInner smol) (w : World smol) {s : smol.Socket}
      → Holds smol io s w
      → write_ready smol io w ≡ some (ok true, w)
      → smol.can_send s ≡ true
  unfolding write_ready
  write_ready-test io w h e = ground (arith, h.free, h.found)

  -- If `write_ready` answers `true`, a write of a slice with some octet that is polled next is not
  -- pending.
  pub write_ready-write :
      SendLaws smol
      → (io : SocketInner smol) (cx : smol.Waker) (buf : List ℕ) (w : World smol) {s : smol.Socket}
      → Holds smol io s w
      → is_empty buf ≡ false
      → write_ready smol io w ≡ some (ok true, w)
      → Answers (stateless (poll_write smol io cx buf) tt w)
  unfolding poll_write
  write_ready-write laws io cx buf w {s} h ne e =
      let (r, s') = smol.send_slice buf s in
      let (a, answer) =
        write_outcome-ready cx r s'
          (λ took. cc (laws.send_slice_full buf s ne took, write_ready-test io w h e)) in
      subst Answers (sym (on_socket-stateless smol io (write_step smol cx buf) tt w h))
        (rw answer tt)
