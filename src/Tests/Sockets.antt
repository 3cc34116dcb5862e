-- ===== src/Tests/Sockets.antt =====
-- The theorems on src/socket.rs and src/poll_share.rs at small inputs.
use ra6m3_rtic.Prelude.{List, ℕ, ◌≡◌, ◌⊎◌, refl, true, some, [], ◌∷◌, ◌++◌, ok}
use ra6m3_rtic.Prelude.Lists.{length}
use ra6m3_rtic.Smoltcp.{State}
use ra6m3_rtic.Future.{ready, pending, stateless, await}
use ra6m3_rtic.Future.Laws.{Answers, Waits}
use ra6m3_rtic.Socket.Access.{with_mut, on_socket}
use ra6m3_rtic.Socket.Inner.{poll_read, poll_write, poll_flush}
use ra6m3_rtic.Socket.Io.{read_ready, write_ready}
use ra6m3_rtic.Socket.Frame.{Serviced, settled, with_mut-Serviced}
use ra6m3_rtic.Socket.Contract.{read_ready-read, write_ready-write}
use ra6m3_rtic.Socket.Reads.{await-read, Reading, HasRead}
use ra6m3_rtic.Socket.Flush.{IsFlushed, poll_flush_lem}
use ra6m3_rtic.Socket.Types.{split}
use ra6m3_rtic.Socket.Reader.{wait_read_ready}
use ra6m3_rtic.Socket.EndOfStream.{Drained, wait_read_ready-Waits}
use ra6m3_rtic.Socket.Stream.{Event, reads, writes, network, play, AllMove}
use ra6m3_rtic.Socket.Duplex.{Streams, play-Streams}
use ra6m3_rtic.Tests.Toy.{
  Toy, toy, socket_in, world, on_all, on_all-Holds, first, socket, world-Holds,
}
use ra6m3_rtic.Tests.Laws.{toy_queues, toy_sets, toy_receives, toy_sends, toy_wakers}

abbrev talking : Toy
talking = socket_in State.established (104 ∷ 105 ∷ [])

abbrev silent : Toy
silent = socket_in State.established []

-- Two octets come in.
abbrev arrives : Toy → Toy
arrives s = record s { rx = 104 ∷ 105 ∷ [] }

read_is_ready : read_ready toy first (world talking) ≡ some (ok true, world talking)
unfolding read_ready
read_is_ready = refl

read_ready-read_example : Answers (poll_read toy first 9 (0 ∷ 0 ∷ []) (world talking))
read_ready-read_example =
    read_ready-read toy toy_receives first 9 (0 ∷ 0 ∷ []) (world talking) (world-Holds talking)
      read_is_ready

write_is_ready : write_ready toy first (world talking) ≡ some (ok true, world talking)
unfolding write_ready
write_is_ready = refl

write_ready-write_example :
    Answers (stateless (poll_write toy first 9 (1 ∷ 2 ∷ [])) tt (world talking))
write_ready-write_example =
    write_ready-write toy toy_sends first 9 (1 ∷ 2 ∷ []) (world talking) (world-Holds talking) refl
      write_is_ready

await-read_example :
    Waits
      (Reading toy first 2)
      (HasRead toy first 2)
      (await (poll_read toy first 9) (0 ∷ 0 ∷ []) (on_all arrives ∷ []) (world silent))
await-read_example =
    await-read toy toy_sets toy_receives first 9 (0 ∷ 0 ∷ []) (on_all arrives ∷ []) (world silent)
      (λ x w ((s, h), e). ((arrives s, on_all-Holds arrives first s w h), e), tt) silent
      (world-Holds silent)

abbrev finishing : Toy
finishing = socket_in State.fin_wait1 []

poll_flush_example :
    (IsFlushed toy finishing
      × (poll_flush toy first 9 (world finishing)
          ≡ some (ready (ok tt), settled toy first finishing 0 (world finishing))))
    ⊎ ((¬ IsFlushed toy finishing)
        × (poll_flush toy first 9 (world finishing)
            ≡ some (pending, settled toy first finishing 0 (world finishing))))
poll_flush_example = poll_flush_lem toy first 9 (world finishing) (world-Holds finishing)

abbrev bump : Toy → ℕ × Toy
bump s = (length s.tx, record s { tx = 7 ∷ s.tx })

bumped :
    with_mut toy first (on_socket toy bump) (world talking)
    ≡ some (0, settled toy first (record talking { tx = 7 ∷ [] }) 0 (world talking))
unfolding with_mut
bumped = refl

with_mut_example :
    Serviced toy first
      (on_socket toy bump)
      (world talking)
      0
      (settled toy first (record talking { tx = 7 ∷ [] }) 0 (world talking))
with_mut_example = with_mut-Serviced toy toy_sets first (on_socket toy bump) (world talking) bumped

-- The peer has closed its half, and nothing is left to read.
abbrev at_end : Toy
at_end = socket_in State.close_wait []

-- A change that leaves the stream at its end: the peer acknowledges what was sent.
abbrev acknowledges : Toy → Toy
acknowledges s = record s { tx = [] }

wait_read_ready-Waits_example :
    (read_ready toy first (world at_end) ≡ some (ok true, world at_end))
    × ((buf : List ℕ) → Answers (poll_read toy first 9 buf (world at_end)))
    × Waits
        (λ _ w. Drained toy first w)
        (λ _ _ _. ⊥)
        (wait_read_ready toy (split socket).0 9 (on_all acknowledges ∷ []) (world at_end))
unfolding split
wait_read_ready-Waits_example =
    wait_read_ready-Waits toy toy_sets toy_receives toy_wakers (split socket).0 9
      (on_all acknowledges ∷ []) (world at_end)
      (
        λ x w (s, h, dry, shut). (acknowledges s, on_all-Holds acknowledges first s w h, dry, shut),
        tt,
      )
      (at_end, world-Holds at_end, refl, refl)

-- One octet comes in behind the others, and the transmit buffer is left alone.
abbrev appends : Toy → Toy
appends s = record s { rx = s.rx ++ 106 ∷ [] }

abbrev exchange : List (Event toy)
exchange =
    reads 9 (0 ∷ 0 ∷ [])
    ∷ writes 9 (1 ∷ 2 ∷ [])
    ∷ network (106 ∷ []) [] (on_all appends)
    ∷ reads 9 (0 ∷ [])
    ∷ []

exchange-AllMove : AllMove toy toy_queues first exchange
unfolding toy_queues
exchange-AllMove = (λ w s h. (appends s, on_all-Holds appends first s w h, refl, refl), tt)

play-Streams_example :
    Streams toy toy_queues first talking exchange
      (play toy (split socket).0 (split socket).1 exchange (world talking))
play-Streams_example =
    play-Streams toy toy_queues toy_sets socket exchange (world talking) talking exchange-AllMove
      (world-Holds talking)
