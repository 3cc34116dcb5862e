-- ===== src/Http/Again.antt =====
-- After a graceful shutdown (src/socket.rs) that returned `Ok` src/http.rs can listen again.
use ra6m3_rtic.Prelude.{
  ℕ, ◌+◌, ◌≡◌, ◌≢◌, ◌∙◌, ◌⊎◌, refl, ap, Bool, true, false, inl, inr, Result, ok, arith,
}
use ra6m3_rtic.Smoltcp.{Smoltcp, State}
use ra6m3_rtic.PollShare.{World, M}
use ra6m3_rtic.Future.{Poll}
use ra6m3_rtic.Future.Laws.{Progress}
use ra6m3_rtic.Socket.Types.{Error, SocketInner, TcpSocket}
use ra6m3_rtic.Socket.Frame.{SetLaws, Holds, settled, settled-Holds}
use ra6m3_rtic.Socket.Laws.{WakerLaws}
use ra6m3_rtic.Http.Timer.{Time, TimeLaws}
use ra6m3_rtic.Http.Clock.{Timed}
use ra6m3_rtic.Http.Within.{Always}
use ra6m3_rtic.Http.Rounds.{Listenable}
use ra6m3_rtic.Http.Flushing.{flushes}
use ra6m3_rtic.Http.Phases.{EndsBy, Read, Phases, phases-EndsBy}
use ra6m3_rtic.Http.Closing.{timeouts, timed_shutdown}
use ra6m3_rtic.Http.Deadline.{by_limit}

-- The states in which our half of the connection is closed, and in which the client's is, too.
abbrev pub is_closing : State → Bool
is_closing State.closed = true
is_closing State.fin_wait1 = true
is_closing State.fin_wait2 = true
is_closing State.closing = true
is_closing State.last_ack = true
is_closing State.time_wait = true
is_closing _ = false

abbrev pub is_over : State → Bool
is_over State.closed = true
is_over State.closing = true
is_over State.last_ack = true
is_over State.time_wait = true
is_over _ = false

over_cases :
    (st : State)
    → is_over st ≡ true
    → st ≢ State.closing
    → st ≢ State.last_ack
    → (st ≡ State.closed) ⊎ (st ≡ State.time_wait)
over_cases State.closed e c l = inl refl
over_cases State.closing e c l = absurd (c refl)
over_cases State.last_ack e c l = absurd (l refl)
over_cases State.time_wait e c l = inr refl
over_cases State.listen e c l = absurd (ground arith)
over_cases State.syn_sent e c l = absurd (ground arith)
over_cases State.syn_received e c l = absurd (ground arith)
over_cases State.established e c l = absurd (ground arith)
over_cases State.fin_wait1 e c l = absurd (ground arith)
over_cases State.fin_wait2 e c l = absurd (ground arith)
over_cases State.close_wait e c l = absurd (ground arith)

module _ (smol : Smoltcp) (port : smol.IpListenEndpoint) where
  -- smoltcp's documentation: `close` closes our half; a socket is not open when it is closed or in
  -- TIME-WAIT; and a socket that is not open listens on the port, if that is one.
  pub record ReuseLaws : Type 0 where
    pub close_state : (s : smol.Socket) → is_closing (smol.state (smol.close s)) ≡ true
    pub not_open :
        (s : smol.Socket)
        → (smol.state s ≡ State.closed) ⊎ (smol.state s ≡ State.time_wait)
        → smol.is_open s ≡ false
    pub listens : (s : smol.Socket) → smol.is_open s ≡ false → (smol.listen_on port s).0 ≡ ok tt

  -- The socket that the provider has is in such a state.
  abbrev pub In : (State → Bool) → SocketInner smol → World smol → Type 0
  In test io w = (s : smol.Socket) × Holds smol io s w × (test (smol.state s) ≡ true)

  module _ (sets : SetLaws smol) (wakers : WakerLaws smol) (laws : ReuseLaws)
      (io : SocketInner smol) (cx : smol.Waker) where
    -- What a pending flush keeps.
    register_In :
        (test : State → Bool) (w : World smol) {s : smol.Socket}
        → Holds smol io s w
        → test (smol.state s) ≡ true
        → In test io (settled smol io (smol.register_send_waker cx s) w.net.iface w)
    register_In test w {s} h c = (
      smol.register_send_waker cx s,
      settled-Holds smol sets io (smol.register_send_waker cx s) w.net.iface w h,
      ap test (wakers.send_waker_state cx s) ∙ c,
    )

    again_phases : Phases io cx (In is_closing io) (In is_over io) (Listenable smol port io)
    again_phases = record {
      reading_held = λ w (s, h, c). (s, h);
      flushing_held = λ w (s, h, c). (s, h);
      flush_reading = λ w (s, h, c).
          flushes io cx w h (λ done. (s, settled-Holds smol sets io s w.net.iface w h, c))
            (register_In is_closing w h c);
      flush_flushing = λ w (s, h, c).
          flushes io cx w h
            (λ done. (
              s,
              settled-Holds smol sets io s w.net.iface w h,
              laws.listens s
                  (laws.not_open s (over_cases (smol.state s) c done.no_closing done.no_last_ack)),
            ))
            (register_In is_over w h c);
    }

  -- When `shutdown` returns `Ok`, smoltcp's `listen` will not refuse the socket, so that the `unwrap`
  -- in the next round of the HTTP task does not panic on it. Otherwise it returns one of the two
  -- timeouts or an error of a read, in each case at the latest 1000 ms and 5000 ms behind its start.
  -- Once our half of the connection is closed it stays so, and so does the client's, of which
  -- picoserve reads the end.
  pub timed_shutdown-Listenable :
      {X : Type 0}
      → SetLaws smol
      → WakerLaws smol
      → ReuseLaws
      → (time : Time smol) → TimeLaws time
      → (sock : TcpSocket smol) (cx : smol.Waker)
      → (discard : X → M smol (Poll (Result (Unit {0}) Error) × X)) (x : X) (start : ℕ)
        (sched : Timed smol) (w : World smol) (s : smol.Socket)
      → ((x : X) (w : World smol)
          → In is_closing sock.io w
          → Progress
              (λ _ w. In is_closing sock.io w)
              (Read (In is_closing sock.io) (In is_over sock.io))
              (discard x w))
      → Always (In is_closing sock.io) sched
      → Always (In is_over sock.io) sched
      → Holds smol sock.io s w
      → EndsBy
          (Listenable smol port sock.io)
          sock.io
          (start + time.embassy_from_millis 1000 + time.embassy_from_millis 5000)
          (timed_shutdown time (timeouts time) sock cx discard x start sched w)
  unfolding timeouts
  timed_shutdown-Listenable sets wakers laws time times sock cx discard x start sched w s discards
        closes ends h =
      phases-EndsBy (again_phases sets wakers laws sock.io cx) time times (timeouts time) discard
        discards start _ x sched w (λ t soon. by_limit time times t start soon) closes ends h
        (
          smol.close s,
          settled-Holds smol sets sock.io (smol.close s) w.net.iface w h,
          laws.close_state s,
        )
