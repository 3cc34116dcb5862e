-- ===== src/Tests/Encrypted.antt =====
-- The theorems on the TLS transport of src/mqtt/tls_socket.rs, with a small TLS layer: its calls let
-- the schedule run, and its connection knows whether the peer fails.
use ra6m3_rtic.Prelude.{
  ℕ, ◌≡◌, Bool, true, false, refl, Option, some, [], ◌∷◌, Result, ok, err, if◌then◌else◌,
}
use ra6m3_rtic.PollShare.{World}
use ra6m3_rtic.Future.{Schedule}
use ra6m3_rtic.Future.Laws.{Keeps}
use ra6m3_rtic.Socket.Types.{SocketInner, new}
use ra6m3_rtic.Socket.Lifecycle.{Held}
use ra6m3_rtic.Mqtt.Backoff.{initial}
use ra6m3_rtic.Mqtt.Tls.{EmbeddedTls, TlsSocket, close, connect_transport_tls}
use ra6m3_rtic.Mqtt.TlsClose.{TlsLaws, GivesBack, Closes, close-Closes}
use ra6m3_rtic.Mqtt.TlsOpen.{OpensTls, connect_transport_tls-OpensTls}
use ra6m3_rtic.Tests.Toy.{toy, world, on_all, first, socket, world-Holds}
use ra6m3_rtic.Tests.Laws.{toy_sets, toy_wakers, toy_states}
use ra6m3_rtic.Tests.Sessions.{seconds}
use ra6m3_rtic.Tests.Changes.{
  running, synchronizes, dies, chats, stays-Held, synchronizes-Connecting,
}

abbrev run : Schedule toy → World toy → World toy
run [] w = w
run (env ∷ rest) w = run rest (env w)

run-Held :
    (io : SocketInner toy) (sched : Schedule toy) (w : World toy)
    → Keeps (λ (_ : Unit {0}) w. Held toy io w) sched
    → Held toy io w
    → Held toy io (run sched w)
run-Held io [] w keeps h = h
run-Held io (env ∷ rest) w (keep, keeps) h = run-Held io rest (env w) keeps (keep tt w h)

abbrev outcome : Bool → Option (Result (Unit {0}) ℕ)
outcome fails = if fails then some (err 5) else some (ok tt)

abbrev farewell : SocketInner toy → Bool → Option (Result (SocketInner toy) (SocketInner toy × ℕ))
farewell io true = some (err (io, 5))
farewell io false = some (ok io)

abbrev small_tls : EmbeddedTls toy
small_tls = record {
  TlsConnection = SocketInner toy × Bool;
  TlsContext = Bool;
  TlsError = ℕ;
  new = λ io rx tx. (io, false);
  tls_open = λ fails c cx sched w. some ((outcome fails, (c.0, fails)), run sched w);
  close = λ c cx sched w. some (farewell c.0 c.1, run sched w);
  read = λ c buf cx sched w. some ((some (ok 0), buf, c), run sched w);
  write = λ c buf cx sched w. some ((some (ok 0), c), run sched w);
  flush = λ c cx sched w. some ((some (ok tt), c), run sched w);
}

farewell-GivesBack :
    (io : SocketInner toy) (fails : Bool) → GivesBack toy small_tls io (farewell io fails)
farewell-GivesBack io true = refl
farewell-GivesBack io false = refl

abbrev small_tls_laws : TlsLaws toy small_tls
small_tls_laws = record {
  delegate = λ c. c.0;
  delegate_new = λ io rx tx. refl;
  open_keeps = λ fails c cx sched w keeps h.
      (outcome fails, (c.0, fails), run sched w, refl, refl, run-Held c.0 sched w keeps h);
  close_keeps = λ c cx sched w keeps h. (
    farewell c.0 c.1,
    run sched w,
    refl,
    farewell-GivesBack c.0 c.1,
    run-Held c.0 sched w keeps h,
  );
}

-- A connection whose peer fails at the farewell.
abbrev failing : TlsSocket small_tls
failing = record { connection = (first, true) }

close-Closes_example :
    (a : Option (Result (SocketInner toy) (SocketInner toy × ℕ))) × (w : World toy)
    × (small_tls.close failing.connection 9 (on_all chats ∷ []) (world running) ≡ some (a, w))
    × Closes toy small_tls first a
        (close toy small_tls failing 9 (on_all chats ∷ []) (on_all dies ∷ []) (world running))
close-Closes_example =
    close-Closes toy small_tls toy_sets small_tls_laws failing 9 (on_all chats ∷ [])
      (on_all dies ∷ []) (world running) (stays-Held chats, tt) (stays-Held dies, tt)
      (running, world-Holds running)

connect_transport_tls_example :
    OpensTls toy small_tls small_tls_laws socket
      (connect_transport_tls toy small_tls seconds false [] [] 0 3 initial
        (record { tested = 0; resumed = 0; stamped = 1 })
        9
        (on_all synchronizes ∷ [])
        (on_all chats ∷ [])
        (world running)).1
unfolding new
connect_transport_tls_example =
    connect_transport_tls-OpensTls toy small_tls small_tls_laws seconds toy_sets toy_wakers
      toy_states false [] [] 0 3 initial (record { tested = 0; resumed = 0; stamped = 1 }) 9
      (on_all synchronizes ∷ []) (on_all chats ∷ []) (world running) (synchronizes-Connecting, tt)
      (stays-Held chats, tt) (world-Holds running)
