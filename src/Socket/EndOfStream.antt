-- ===== src/Socket/EndOfStream.antt =====
-- `wait_read_ready` of src/socket.rs at the end of the stream.
use mathlib.Core.Path.{subst}
use ra6m3_rtic.Prelude.{ℕ, ◌≡◌, ◌∙◌, sym, true, false, some, List, ok, not, ◌||◌}
use ra6m3_rtic.Smoltcp.{Smoltcp}
use ra6m3_rtic.PollShare.{World}
use ra6m3_rtic.Future.{Schedule, stateless}
use ra6m3_rtic.Future.Laws.{Answers, Progress, Waits, Keeps, await-Waits}
use ra6m3_rtic.Socket.Types.{SocketInner, TcpReader}
use ra6m3_rtic.Socket.Inner.{poll_read, poll_read_ready, read_ready_step}
use ra6m3_rtic.Socket.Reader.{wait_read_ready}
use ra6m3_rtic.Socket.Io.{read_ready}
use ra6m3_rtic.Socket.Frame.{SetLaws, Holds, with_lem, on_socket-stateless, settled-Holds}
use ra6m3_rtic.Socket.Laws.{RecvLaws, WakerLaws}
use ra6m3_rtic.Socket.Contract.{read_ready-read}

module _ (smol : Smoltcp) where
  -- The peer has closed its half, and all that it sent was read.
  abbrev pub Drained : SocketInner smol → World smol → Type 0
  Drained io w =
      (s : smol.Socket) × Holds smol io s w × (smol.can_recv s ≡ false) × (smol.may_recv s ≡ false)

  wait_read_ready-Progress :
      SetLaws smol
      → WakerLaws smol
      → (io : SocketInner smol) (cx : smol.Waker) (x : Unit {0}) (w : World smol) → Drained io w
      → Progress (λ _ w. Drained io w) (λ _ _ _. ⊥) (stateless (poll_read_ready smol io cx) x w)
  unfolding poll_read_ready
  wait_read_ready-Progress sets wakers io cx x w (s, h, dry, shut) =
      subst (Progress (λ _ w. Drained io w) (λ _ _ _. ⊥))
        (sym (on_socket-stateless smol io (read_ready_step smol cx) x w h))
        (rw dry (
          smol.register_recv_waker cx s,
          settled-Holds smol sets io (smol.register_recv_waker cx s) w.net.iface w h,
          wakers.recv_waker_can_recv cx s ∙ dry,
          wakers.recv_waker_may_recv cx s ∙ shut,
        ))

  read_ready-Drained :
      (io : SocketInner smol) (w : World smol)
      → Drained io w
      → read_ready smol io w ≡ some (ok true, w)
  unfolding read_ready
  read_ready-Drained io w (s, h, dry, shut) =
      with_lem smol io (λ s _. ok (smol.can_recv s || not (smol.may_recv s))) w h ∙ rw (dry, shut)

  -- At the end of the stream `read_ready` answers `true` and a read is answered, but
  -- `wait_read_ready` neither panics nor ever completes, as long as the changes between its polls
  -- leave the stream at its end.
  pub wait_read_ready-Waits :
      SetLaws smol
      → RecvLaws smol
      → WakerLaws smol
      → (reader : TcpReader smol) (cx : smol.Waker) (sched : Schedule smol) (w : World smol)
      → Keeps (λ (_ : Unit {0}) w. Drained reader.io w) sched
      → Drained reader.io w
      → (read_ready smol reader.io w ≡ some (ok true, w))
        × ((buf : List ℕ) → Answers (poll_read smol reader.io cx buf w))
        × Waits (λ _ w. Drained reader.io w) (λ _ _ _. ⊥) (wait_read_ready smol reader cx sched w)
  unfolding wait_read_ready
  wait_read_ready-Waits sets recvs wakers reader cx sched w keeps d = (
    read_ready-Drained reader.io w d,
    λ buf. read_ready-read smol recvs reader.io cx buf w d.1 (read_ready-Drained reader.io w d),
    await-Waits (λ _ w. Drained reader.io w) (λ _ _ _. ⊥)
        (stateless (poll_read_ready smol reader.io cx)) tt sched w
        (wait_read_ready-Progress sets wakers reader.io cx) keeps d,
  )
