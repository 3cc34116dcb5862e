-- ===== src/Socket/Reads.antt =====
-- What an awaited `read` of src/socket.rs returns.
use ra6m3_rtic.Prelude.{
  ℕ, suc, zero, ◌≤◌, ◌≡◌, ◌∙◌, refl, sym, ◌⊎◌, inl, inr, Bool, true, false, some, List, Result, ok,
  err, arith,
}
use mathlib.Core.Path.{subst}
use ra6m3_rtic.Prelude.Lists.{length, is_empty}
use ra6m3_rtic.Smoltcp.{Smoltcp, RecvError}
use ra6m3_rtic.PollShare.{World}
use ra6m3_rtic.Future.{Schedule, await}
use ra6m3_rtic.Future.Laws.{Progress, Waits, Keeps, await-Waits}
use ra6m3_rtic.Socket.Types.{Error, SocketInner}
use ra6m3_rtic.Socket.Inner.{poll_read, read_outcome, read_step}
use ra6m3_rtic.Socket.Frame.{SetLaws, Holds, settled, on_socket_lem, settled-Holds}
use ra6m3_rtic.Socket.Laws.{RecvLaws}

module _ (smol : Smoltcp) where
  -- What the answer tells of what smoltcp said, for the slice as it was: its own count, which is 0
  -- only into an empty slice, or the end of the stream, or an invalid state.
  abbrev pub Received : smol.Socket → List ℕ → Result ℕ Error → Type 0
  Received s buf (err e) =
      (e ≡ Error.connection_reset) × ((smol.recv_slice buf s).0 ≡ err RecvError.invalid_state)
  Received s buf (ok n) =
      (((smol.recv_slice buf s).0 ≡ ok n) × (n ≤ length buf) × (n ≡ 0 → is_empty buf ≡ true))
      ⊎ ((n ≡ 0) × ((smol.recv_slice buf s).0 ≡ err RecvError.finished))

  -- The provider has the socket, and the slice has its length.
  abbrev pub Reading : SocketInner smol → ℕ → List ℕ → World smol → Type 0
  Reading io n buf w = ((s : smol.Socket) × Holds smol io s w) × (length buf ≡ n)

  -- What `await-read` states of the answers: there was a last poll, in a store `old` with the socket
  -- `s`, which called `recv_slice` once, on `s` as it stood; the slice and the store are what this
  -- call and one round of `with_mut` leave of `b` and `old`, and the answer is the call's.
  abbrev pub HasRead : SocketInner smol → ℕ → Result ℕ Error → List ℕ → World smol → Type 0
  HasRead io n r buf w =
      Reading io n buf w
      × ((s : smol.Socket) × (old : World smol) × (b : List ℕ) × Holds smol io s old
          × (length b ≡ n)
          × (buf ≡ (smol.recv_slice b s).1)
          × (w ≡ settled smol io (smol.recv_slice b s).2 old.net.iface old)
          × Received s b r)

  module _ (sets : SetLaws smol) (recvs : RecvLaws smol) (io : SocketInner smol) (cx : smol.Waker)
      (n : ℕ) where
    kept :
        (buf : List ℕ) (w : World smol) (s : smol.Socket)
        → Holds smol io s w
        → length buf ≡ n
        → (t : smol.Socket)
        → Reading io n (smol.recv_slice buf s).1 (settled smol io t w.net.iface w)
    kept buf w s h e t =
        ((t, settled-Holds smol sets io t w.net.iface w h), recvs.recv_slice_length buf s ∙ e)

    last :
        (buf : List ℕ) (w : World smol) (s : smol.Socket)
        → Holds smol io s w
        → length buf ≡ n
        → (r : Result ℕ Error) → Received s buf r
        → HasRead io n r
            (smol.recv_slice buf s).1
            (settled smol io (smol.recv_slice buf s).2 w.net.iface w)
    last buf w s h e r received = (kept buf w s h e _, (s, w, buf, h, e, refl, refl, received))

    read_outcome-Progress :
        (buf : List ℕ) (w : World smol) (s : smol.Socket)
        → Holds smol io s w
        → length buf ≡ n
        → (b : Bool) → is_empty buf ≡ b
        → (r : Result ℕ RecvError) → (smol.recv_slice buf s).0 ≡ r
        → let (_, buf', s') = smol.recv_slice buf s in
          let (p, s'') = read_outcome smol cx b r s' in
          Progress
            (Reading io n)
            (HasRead io n)
            (some ((p, buf'), settled smol io s'' w.net.iface w))
    read_outcome-Progress buf w s h e true eb (ok zero) er =
        last buf w s h e (ok 0) (inl (er, recvs.recv_slice_count buf s 0 er, λ _. eb))
    read_outcome-Progress buf w s h e false eb (ok zero) er = kept buf w s h e _
    read_outcome-Progress buf w s h e true eb (ok (suc k)) er =
        last buf w s h e (ok (suc k)) (inl (er, recvs.recv_slice_count buf s (suc k) er, λ _. eb))
    read_outcome-Progress buf w s h e false eb (ok (suc k)) er =
        last buf w s h e (ok (suc k))
          (inl (er, recvs.recv_slice_count buf s (suc k) er, λ z. absurd (omega arith)))
    read_outcome-Progress buf w s h e true eb (err RecvError.finished) er =
        last buf w s h e (ok 0) (inr (refl, er))
    read_outcome-Progress buf w s h e false eb (err RecvError.finished) er =
        last buf w s h e (ok 0) (inr (refl, er))
    read_outcome-Progress buf w s h e true eb (err RecvError.invalid_state) er =
        last buf w s h e (err Error.connection_reset) (refl, er)
    read_outcome-Progress buf w s h e false eb (err RecvError.invalid_state) er =
        last buf w s h e (err Error.connection_reset) (refl, er)

    poll_read-Progress :
        (buf : List ℕ) (w : World smol)
        → Reading io n buf w
        → Progress (Reading io n) (HasRead io n) (poll_read smol io cx buf w)
    unfolding poll_read
    poll_read-Progress buf w ((s, h), e) =
        subst (Progress (Reading io n) (HasRead io n))
          (sym (on_socket_lem smol io (read_step smol cx buf) w h))
          (read_outcome-Progress buf w s h e (is_empty buf) refl (smol.recv_slice buf s).0 refl)

  -- Awaited over any changes that leave the socket in place, `read` does not panic. If it answers,
  -- its last poll called smoltcp's `recv_slice` once, on the socket as it stood, and the slice and
  -- the store are as this call leaves them. `Ok(n)` is the count of this call, at most the length of
  -- the slice and 0 only for an empty slice, or it is `Ok(0)` at the end of the stream; an error is
  -- `ConnectionReset`, where smoltcp has reported an invalid state.
  pub await-read :
      SetLaws smol
      → RecvLaws smol
      → (io : SocketInner smol) (cx : smol.Waker) (buf : List ℕ) (sched : Schedule smol)
      → (w : World smol) → Keeps (Reading io (length buf)) sched
      → (s : smol.Socket) → Holds smol io s w
      → Waits
          (Reading io (length buf))
          (HasRead io (length buf))
          (await (poll_read smol io cx) buf sched w)
  await-read sets recvs io cx buf sched w keeps s h =
      await-Waits (Reading io (length buf)) (HasRead io (length buf)) (poll_read smol io cx) buf
        sched w (poll_read-Progress sets recvs io cx (length buf)) keeps ((s, h), refl)
