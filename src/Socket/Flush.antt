-- ===== src/Socket/Flush.antt =====
-- When `flush` of src/socket.rs returns, also after `abort`.
use mathlib.Core.Path.{subst}
use ra6m3_rtic.Prelude.{
  ◌≡◌, ◌≢◌, ◌∙◌, ◌⊎◌, refl, sym, Option, none, some, Result, ok, err, arith, inl, inr,
}
use ra6m3_rtic.Smoltcp.{Smoltcp, State}
use ra6m3_rtic.PollShare.{World, >>=_lem}
use ra6m3_rtic.Future.{ready, pending, Schedule, stateless}
use ra6m3_rtic.Future.Laws.{Progress, Waits, Keeps, await-Waits}
use ra6m3_rtic.Socket.Types.{Error, SocketInner, TcpSocket}
use ra6m3_rtic.Socket.Inner.{poll_flush, flush_step}
use ra6m3_rtic.Socket.Tcp.{abort}
use ra6m3_rtic.Socket.Io.{ServeError, write_timeout, flush_result, flush_with_timeout, serve_abort}
use ra6m3_rtic.Socket.Frame.{
  SetLaws, Holds, settled, on_socket_lem, on_socket-stateless, settled-Holds,
}
use ra6m3_rtic.Socket.Laws.{WakerLaws, StateLaws}

module _ (smol : Smoltcp) where
  -- Nothing is outstanding: no data that could still be sent, no FIN without its acknowledgement,
  -- and no RST of a closed connection that still has its peer.
  pub record IsFlushed (s : smol.Socket) : Type 0 where
    pub no_data : (smol.send_queue s ≡ 0) ⊎ (smol.state s ≡ State.closed)
    pub no_fin_wait1 : smol.state s ≢ State.fin_wait1
    pub no_closing : smol.state s ≢ State.closing
    pub no_last_ack : smol.state s ≢ State.last_ack
    pub no_rst : smol.state s ≡ State.closed → smol.remote_endpoint s ≡ none

  flush_step-IsFlushed :
      (cx : smol.Waker) (s : smol.Socket) → flush_step smol cx s ≡ (ready (ok tt), s) → IsFlushed s
  flush_step-IsFlushed cx s e = ground arith

  flush_step_of_IsFlushed :
      (cx : smol.Waker) (s : smol.Socket) → IsFlushed s → flush_step smol cx s ≡ (ready (ok tt), s)
  flush_step_of_IsFlushed cx s h = ground arith

  -- Otherwise it waits for the send waker.
  pub flush_step-cases :
      (cx : smol.Waker) (s : smol.Socket)
      → (flush_step smol cx s ≡ (ready (ok tt), s))
        ⊎ (flush_step smol cx s ≡ (pending, smol.register_send_waker cx s))
  flush_step-cases cx s = ground arith

  -- A poll of `flush` answers at once if nothing is outstanding; otherwise, and only then, it is
  -- pending with the waker registered for the next dequeued octet. Nothing is outstanding if there
  -- is no data that can still be sent, no FIN to be acknowledged and no RST to be sent.
  pub poll_flush_lem :
      (io : SocketInner smol) (cx : smol.Waker) (w : World smol) {s : smol.Socket}
      → Holds smol io s w
      → (IsFlushed s
          × (poll_flush smol io cx w ≡ some (ready (ok tt), settled smol io s w.net.iface w)))
        ⊎ ((¬ IsFlushed s)
            × (poll_flush smol io cx w
                ≡ some (pending, settled smol io (smol.register_send_waker cx s) w.net.iface w)))
  unfolding poll_flush
  poll_flush_lem io cx w {s} h = elim (flush_step-cases cx s) [
    | inl done ↦ inl (
      flush_step-IsFlushed cx s done,
      rw (on_socket_lem smol io (flush_step smol cx) w h) (rw done),
    )
    | inr waits ↦ inr (
      λ f. cc (flush_step_of_IsFlushed cx s f),
      rw (on_socket_lem smol io (flush_step smol cx) w h) (rw waits),
    )
  ]

  -- The socket is closed, and the RST has been sent if it has no peer any more.
  abbrev pub Closed : SocketInner smol → World smol → Type 0
  Closed io w = (s : smol.Socket) × Holds smol io s w × (smol.state s ≡ State.closed)

  abbrev pub Reset : SocketInner smol → World smol → Type 0
  Reset io w =
      (s : smol.Socket) × Holds smol io s w
      × (smol.state s ≡ State.closed)
      × (smol.remote_endpoint s ≡ none)

  abbrev pub Aborts : SocketInner smol → Option (Result (Unit {0}) ServeError × World smol) → Type 0
  Aborts io none = ⊥
  Aborts io (some (ok _, w)) = Reset io w
  Aborts io (some (err e, w)) = (e ≡ write_timeout) × Closed io w

  module _ (sets : SetLaws smol) (wakers : WakerLaws smol) (states : StateLaws smol)
      (io : SocketInner smol) (cx : smol.Waker) where
    pub flush-Progress :
        (x : Unit {0}) (w : World smol)
        → Closed io w
        → Progress
            (λ _ w. Closed io w)
            (λ r _ w. (r ≡ ok tt) × Reset io w)
            (stateless (poll_flush smol io cx) x w)
    unfolding poll_flush
    flush-Progress x w (s, h, c) =
        subst (Progress (λ _ w. Closed io w) (λ r _ w. (r ≡ ok tt) × Reset io w))
          (sym (on_socket-stateless smol io (flush_step smol cx) x w h))
          (elim (flush_step-cases cx s) [
            | inl done ↦ rw done (
              refl,
              (
                s,
                settled-Holds smol sets io s w.net.iface w h,
                c,
                (flush_step-IsFlushed cx s done).no_rst c,
              ),
            )
            | inr waits ↦ rw waits (
              smol.register_send_waker cx s,
              settled-Holds smol sets io (smol.register_send_waker cx s) w.net.iface w h,
              wakers.send_waker_state cx s ∙ c,
            )
          ])

    timed_flush-Aborts :
        (r : Option ((Option (Result (Unit {0}) Error) × Unit {0}) × World smol))
        → Waits (λ _ w. Closed io w) (λ r _ w. (r ≡ ok tt) × Reset io w) r
        → Aborts io (elim r [ none ↦ none | some ((r', _), w') ↦ some (flush_result r', w') ])
    timed_flush-Aborts none h = h
    timed_flush-Aborts (some ((none, _), w)) h = (refl, h)
    timed_flush-Aborts (some ((some (ok _), _), w)) h = h.1
    timed_flush-Aborts (some ((some (err e), _), w)) h = cc

  -- The `abort` of the picoserve socket returns `Ok` only when the connection is closed and its
  -- RST was sent, so that no peer is left; otherwise the write timeout has passed. It does not
  -- panic. The changes between the polls keep the socket closed.
  pub serve_abort-Aborts :
      SetLaws smol
      → WakerLaws smol
      → StateLaws smol
      → (sock : TcpSocket smol) (cx : smol.Waker) (sched : Schedule smol) (w : World smol)
      → {s : smol.Socket} → Keeps (λ (_ : Unit {0}) w. Closed sock.io w) sched
      → Holds smol sock.io s w
      → Aborts sock.io (serve_abort smol sock cx sched w)
  unfolding serve_abort
  serve_abort-Aborts sets wakers states sock cx sched w {s} keeps h =
      let io = sock.io in
      let w' : World smol = settled smol io (smol.abort s) w.net.iface w in
      subst (Aborts io)
        (sym (
          >>=_lem (abort smol sock) (λ _. flush_with_timeout smol io cx sched) w
            (on_socket_lem smol io (λ s. (tt, smol.abort s)) w h)))
        (timed_flush-Aborts sets wakers states io cx _ (
          await-Waits (λ _ w. Closed io w) (λ r _ w. (r ≡ ok tt) × Reset io w)
            (stateless (poll_flush smol io cx)) tt sched w'
            (flush-Progress sets wakers states io cx) keeps
            (
              smol.abort s,
              settled-Holds smol sets io (smol.abort s) w.net.iface w h,
              states.abort_state s,
            )))
