-- ===== src/Socket/Stream.antt =====
-- The two halves of src/socket.rs in use at once: what a reading task, a writing task and the
-- network do to one socket, in any order, and the streams of octets that they see.
use ra6m3_rtic.Prelude.{ℕ, ◌≡◌, Option, none, some, List, [], ◌∷◌, ◌++◌, Result, ok, err}
use ra6m3_rtic.Prelude.Lists.{take}
use ra6m3_rtic.Smoltcp.{Smoltcp, RecvError, SendError}
use ra6m3_rtic.PollShare.{World, M}
use ra6m3_rtic.Future.{Poll, ready, pending}
use ra6m3_rtic.Socket.Types.{Error, SocketInner, TcpReader, TcpWriter}
use ra6m3_rtic.Socket.Inner.{poll_read, poll_write}
use ra6m3_rtic.Socket.Frame.{Holds}

-- The octets in the two buffers of a smoltcp socket, in order, and what its documentation says of
-- them: both buffers are queues.
pub record Queues (smol : Smoltcp) : Type 0 where
  pub received : smol.Socket → List ℕ
  pub queued : smol.Socket → List ℕ
  pub recv_slice_ok :
      (buf : List ℕ) (s : smol.Socket) (n : ℕ)
      → (smol.recv_slice buf s).0 ≡ ok n
      → received s ≡ take n (smol.recv_slice buf s).1 ++ received (smol.recv_slice buf s).2
  pub recv_slice_err :
      (buf : List ℕ) (s : smol.Socket) (e : RecvError)
      → (smol.recv_slice buf s).0 ≡ err e
      → received (smol.recv_slice buf s).2 ≡ received s
  pub recv_slice_queued :
      (buf : List ℕ) (s : smol.Socket) → queued (smol.recv_slice buf s).2 ≡ queued s
  pub send_slice_ok :
      (buf : List ℕ) (s : smol.Socket) (n : ℕ)
      → (smol.send_slice buf s).0 ≡ ok n
      → queued (smol.send_slice buf s).1 ≡ queued s ++ take n buf
  pub send_slice_err :
      (buf : List ℕ) (s : smol.Socket) (e : SendError)
      → (smol.send_slice buf s).0 ≡ err e
      → queued (smol.send_slice buf s).1 ≡ queued s
  pub send_slice_received :
      (buf : List ℕ) (s : smol.Socket) → received (smol.send_slice buf s).1 ≡ received s
  pub recv_waker_received :
      (cx : smol.Waker) (s : smol.Socket) → received (smol.register_recv_waker cx s) ≡ received s
  pub recv_waker_queued :
      (cx : smol.Waker) (s : smol.Socket) → queued (smol.register_recv_waker cx s) ≡ queued s
  pub send_waker_received :
      (cx : smol.Waker) (s : smol.Socket) → received (smol.register_send_waker cx s) ≡ received s
  pub send_waker_queued :
      (cx : smol.Waker) (s : smol.Socket) → queued (smol.register_send_waker cx s) ≡ queued s

-- A poll of a read or of a write, or a change that the network makes, with the octets that come in
-- by it and those that it takes off the transmit buffer.
pub data Event (smol : Smoltcp) : Type 0 where
  reads writes : smol.Waker → List ℕ → Event smol
  network : List ℕ → List ℕ → (World smol → World smol) → Event smol

-- The octets that a poll of `read` hands over, from the slice it leaves.
abbrev pub delivered : Poll (Result ℕ Error) × List ℕ → List ℕ
delivered (ready (ok n), buf) = take n buf
delivered (ready (err e), buf) = []
delivered (pending, buf) = []

-- The octets that a poll of `write` took from its slice.
abbrev pub accepted : List ℕ → Poll (Result ℕ Error) → List ℕ
accepted buf (ready (ok n)) = take n buf
accepted buf (ready (err e)) = []
accepted buf pending = []

module _ (smol : Smoltcp) where
  -- What was read and what was written so far, in front of the rest.
  abbrev pub before :
      List ℕ
      → List ℕ
      → Option ((List ℕ × List ℕ) × World smol)
      → Option ((List ℕ × List ℕ) × World smol)
  before got put none = none
  before got put (some ((got', put'), w)) = some ((got ++ got', put ++ put'), w)

  abbrev pub after_read :
      M smol (List ℕ × List ℕ)
      → Option ((Poll (Result ℕ Error) × List ℕ) × World smol)
      → Option ((List ℕ × List ℕ) × World smol)
  after_read rest none = none
  after_read rest (some (answer, w)) = before (delivered answer) [] (rest w)

  abbrev pub after_write :
      List ℕ
      → M smol (List ℕ × List ℕ)
      → Option (Poll (Result ℕ Error) × World smol)
      → Option ((List ℕ × List ℕ) × World smol)
  after_write buf rest none = none
  after_write buf rest (some (answer, w)) = before [] (accepted buf answer) (rest w)

  -- The events in order: all octets that were read, and all that were written.
  unfoldable pub play :
      TcpReader smol → TcpWriter smol → List (Event smol) → M smol (List ℕ × List ℕ)
  unfolding poll_read poll_write
  play reader writer [] w = some (([], []), w)
  play reader writer (reads cx buf ∷ rest) w =
      after_read (play reader writer rest) (poll_read smol reader.io cx buf w)
  play reader writer (writes cx buf ∷ rest) w =
      after_write buf (play reader writer rest) (poll_write smol writer.io cx buf w)
  play reader writer (network arrived left env ∷ rest) w = play reader writer rest (env w)

  abbrev pub arrivals : List (Event smol) → List ℕ
  arrivals [] = []
  arrivals (network arrived left env ∷ rest) = arrived ++ arrivals rest
  arrivals (reads cx buf ∷ rest) = arrivals rest
  arrivals (writes cx buf ∷ rest) = arrivals rest

  abbrev pub departures : List (Event smol) → List ℕ
  departures [] = []
  departures (network arrived left env ∷ rest) = left ++ departures rest
  departures (reads cx buf ∷ rest) = departures rest
  departures (writes cx buf ∷ rest) = departures rest

  -- A change of the network keeps the socket in place and does to its queues what it says.
  abbrev pub Moves :
      Queues smol → SocketInner smol → List ℕ → List ℕ → (World smol → World smol) → Type 0
  Moves q io arrived left env =
      (w : World smol) (s : smol.Socket)
      → Holds smol io s w
      → (t : smol.Socket) × Holds smol io t (env w)
        × (q.received t ≡ q.received s ++ arrived)
        × (q.queued s ≡ left ++ q.queued t)

  abbrev pub AllMove : Queues smol → SocketInner smol → List (Event smol) → Type 0
  AllMove q io [] = Unit
  AllMove q io (network arrived left env ∷ rest) = Moves q io arrived left env × AllMove q io rest
  AllMove q io (reads cx buf ∷ rest) = AllMove q io rest
  AllMove q io (writes cx buf ∷ rest) = AllMove q io rest
