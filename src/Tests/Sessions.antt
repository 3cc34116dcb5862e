-- ===== src/Tests/Sessions.antt =====
-- The theorems on the sessions of src/socket.rs, src/mqtt.rs and src/http.rs at small inputs.
use ra6m3_rtic.Prelude.{
  ℕ, ◌*◌, Bool, ◌≡◌, ◌≢◌, refl, true, none, some, [], ◌∷◌, ◌++◌, Result, ok, err, arith,
}
use ra6m3_rtic.Smoltcp.{State, ListenError}
use ra6m3_rtic.PollShare.{World, M, ◌>>=◌}
use ra6m3_rtic.Future.{Poll, pending}
use ra6m3_rtic.Socket.Types.{Error}
use ra6m3_rtic.Socket.Tcp.{connect, accept, disconnect}
use ra6m3_rtic.Socket.Io.{shutdown}
use ra6m3_rtic.Socket.Lifecycle.{Connects, connect-Connects}
use ra6m3_rtic.Socket.Closing.{Accepts, accept-Accepts}
use ra6m3_rtic.Socket.Disconnect.{Disconnects, Returns, disconnect-Disconnects, disconnect-Returns}
use ra6m3_rtic.Mqtt.Transport.{open_transport}
use ra6m3_rtic.Mqtt.Reconnect.{Opens, open_transport-Opens}
use ra6m3_rtic.Mqtt.Echo.{message, published, recv_failed}
use ra6m3_rtic.Mqtt.Session.{Turn}
use ra6m3_rtic.Mqtt.Turns.{Behaves}
use ra6m3_rtic.Http.Task.{Connection, http}
use ra6m3_rtic.Http.Shutdown.{Open, http_after_shutdown_panics}
use ra6m3_rtic.Tests.Toy.{
  Toy, toy, world, on_all, on_all-Holds, first, socket, world-Holds, opens, listens,
}
use ra6m3_rtic.Tests.Changes.{
  shut, running, synchronizes, dies, chats, stays-Held, synchronizes-Connecting,
}
use ra6m3_rtic.Tests.Broker.{counting, answer, after}
use ra6m3_rtic.Tests.Laws.{toy_sets, toy_wakers, toy_states}
use ra6m3_rtic.Tests.Text.{bytes_512}

connect_example :
    Connects toy (ok tt) socket (connect toy socket 3 80 9 (on_all synchronizes ∷ []) (world shut))
connect_example =
    connect-Connects toy toy_sets toy_wakers toy_states socket 3 80 9 (on_all synchronizes ∷ [])
      (world shut) (synchronizes-Connecting, tt) (world-Holds shut)

accept_example : Accepts toy socket (accept toy socket 80 9 (on_all synchronizes ∷ []) (world shut))
accept_example =
    accept-Accepts toy toy_sets socket 80 9 (on_all synchronizes ∷ []) (world shut)
      (stays-Held synchronizes, tt) (shut, world-Holds shut)

disconnect_example :
    Disconnects toy socket
      (disconnect toy socket 9 (on_all chats ∷ on_all dies ∷ []) (world running))
disconnect_example =
    disconnect-Disconnects toy toy_sets socket 9 (on_all chats ∷ on_all dies ∷ []) (world running)
      (stays-Held chats, (stays-Held dies, tt)) (running, world-Holds running)

disconnect-Returns_example : Returns toy (
    disconnect toy socket 9
      ((on_all chats ∷ []) ++ on_all dies ∷ on_all chats ∷ [])
      (world running))
disconnect-Returns_example =
    disconnect-Returns toy toy_sets socket 9 (on_all chats ∷ []) (on_all dies) (on_all chats ∷ [])
      (world running) (λ x w (s, h). stays-Held chats x w (toy.register_recv_waker 9 s, h), tt)
      (λ w (s, h). (
        dies (toy.register_recv_waker 9 s),
        on_all-Holds dies first (toy.register_recv_waker 9 s) w h,
        refl,
      ))
      (running, world-Holds running)

abbrev pub seconds : ℕ → ℕ
seconds n = n * 1000000

open_transport_example :
    Opens toy socket
      (open_transport toy seconds socket 3 58026 9 (on_all synchronizes ∷ []) (world running))
open_transport_example =
    open_transport-Opens toy seconds toy_sets toy_wakers toy_states socket 3 58026 9
      (on_all synchronizes ∷ []) (world running) (synchronizes-Connecting, tt) (world-Holds running)

-- A server that answers two requests and has the connection closed.
abbrev served : Connection toy
served = record { waiting = on_all synchronizes ∷ []; serve = λ w. some (ok 2, on_all dies w) }

-- The client sends for ever: a read of the rest of its data never comes to the end.
abbrev talks_on : Unit {0} → M toy (Poll (Result (Unit {0}) Error) × Unit {0})
talks_on x w = some ((pending, tt), w)

chats-Open :
    (x : Unit {0} × Bool) (w : World toy) → Open toy first w → Open toy first (on_all chats w)
chats-Open x w (s, h, o, quiet) = (chats s, on_all-Holds chats first s w h, o, quiet)

refuses_open :
    (port : ℕ) (s : Toy)
    → opens s.st ≡ true
    → s.st ≢ State.listen
    → (listens port s).0 ≡ err ListenError.invalid_state
refuses_open port s o ne = ground arith

http_after_shutdown_example :
    ◌>>=◌ {smol = toy}
      (shutdown toy socket 9 talks_on tt (on_all chats ∷ []) [])
      (λ _. http toy 0 80 9 (served ∷ []))
      (world running)
    ≡ none
http_after_shutdown_example =
    http_after_shutdown_panics toy toy_sets toy_wakers refuses_open 0 80 9 talks_on tt
      (on_all chats ∷ []) [] (world running) running served [] (λ x w o. (tt, w, refl, o))
      (chats-Open, tt) (world-Holds running) refl (λ l. cc)

-- A turn whose session is connected, echoes a message, loses the connection, and is disconnected.
abbrev pub dropped : Turn toy counting
dropped = record {
  readings = record { tested = 0; resumed = 0; stamped = 5 };
  backing_off = on_all chats;
  handshake = on_all synchronizes ∷ [];
  connected = λ w. some (ok 9, w);
  polls = 4;
  rounds = message (b'a' ∷ []) published ∷ recv_failed 3 ∷ [];
  during = on_all chats;
  leaving = on_all dies ∷ [];
}

pub dropped-Behaves : Behaves toy seconds bytes_512 counting 0 first dropped
dropped-Behaves = record {
  backs_off = λ w h. stays-Held chats tt w h;
  shakes = (synchronizes-Connecting, tt);
  connects = λ w (s, h, _). (ok 9, w, refl, (s, h));
  subscribes = λ conn w h. ((ok tt, 2), w, refl, h);
  polls = λ conn w h. ((answer conn, after conn), on_all chats w, refl, stays-Held chats tt w h);
  is_short = (omega arith, tt);
  carries_on = λ w h. stays-Held chats tt w h;
  leaves = (stays-Held dies, tt);
}
