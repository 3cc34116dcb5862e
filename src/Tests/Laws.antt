-- ===== src/Tests/Laws.antt =====
-- The small stack of Toy fulfils the laws that the theorems ask of smoltcp.
use mathlib.Core.List.{append-nil}
use ra6m3_rtic.Prelude.{
  zero, ◌++◌, ℕ, suc, ◌≤◌, ◌≡◌, refl, Bool, true, false, not, ◌&&◌, ◌||◌, List, [], ◌∷◌, ok, err,
  ltb, arith,
}
use ra6m3_rtic.Prelude.Lists.{length, is_empty, take}
use ra6m3_rtic.Smoltcp.{State, RecvError, SendError}
use ra6m3_rtic.Socket.Stream.{Queues}
use ra6m3_rtic.Socket.Frame.{SetLaws}
use ra6m3_rtic.Socket.Laws.{RecvLaws, SendLaws, WakerLaws, StateLaws}
use ra6m3_rtic.Tests.Toy.{Toy, sends, receives, receive, transmit, toy}

pub toy_sets : SetLaws toy
toy_sets = record {
  get-put_self = λ h s t set e. ground arith;
  get-put_ne = λ h k t set ne. ground arith;
}

receive-length :
    (rx buf : List ℕ) (st : State) (eof : Bool) → length (receive rx buf st eof).1 ≡ length buf
receive-length [] buf st eof = ground arith
receive-length (b ∷ rest) [] st eof = refl
receive-length (b ∷ rest) (c ∷ cs) st eof = refl

receive-count :
    (rx buf : List ℕ) (st : State) (eof : Bool) (n : ℕ)
    → (receive rx buf st eof).0 ≡ ok n
    → n ≤ length buf
receive-count [] buf st eof n e = ground arith
receive-count (b ∷ rest) [] st eof n e = ground arith
receive-count (b ∷ rest) (c ∷ cs) st eof n e = ground arith

receive-empty :
    (rx buf : List ℕ) (st : State) (eof : Bool)
    → is_empty buf ≡ false
    → (receive rx buf st eof).0 ≡ ok 0
    → (not (is_empty rx) ≡ false) × ((receives st || not (is_empty rx)) ≡ true)
receive-empty [] buf st eof ne e = ground arith
receive-empty (b ∷ rest) [] st eof ne e = cc
receive-empty (b ∷ rest) (c ∷ cs) st eof ne e = absurd cc

pub toy_receives : RecvLaws toy
toy_receives = record {
  recv_slice_length = λ buf s. receive-length s.rx buf s.st s.eof;
  recv_slice_count = λ buf s. receive-count s.rx buf s.st s.eof;
  recv_slice_empty = λ buf s. receive-empty s.rx buf s.st s.eof;
}

transmit-full :
    (buf : List ℕ) (s : Toy)
    → is_empty buf ≡ false
    → (transmit buf s).0 ≡ ok 0
    → (sends s.st && ltb (length s.tx) 2) ≡ false
transmit-full [] s ne e = cc
transmit-full (c ∷ cs) s ne e = ground arith

pub toy_sends : SendLaws toy
toy_sends = record { send_slice_full = transmit-full }

pub toy_wakers : WakerLaws toy
toy_wakers = record {
  send_waker_state = λ cx s. refl;
  send_waker_may_send = λ cx s. refl;
  send_waker_is_open = λ cx s. refl;
  recv_waker_is_open = λ cx s. refl;
  recv_waker_can_recv = λ cx s. refl;
  recv_waker_may_recv = λ cx s. refl;
}

pub toy_states : StateLaws toy
toy_states = record {
  abort_state = λ s. refl;
  abort_is_open = λ s. refl;
  connect_state = λ i e port s h. ground arith;
  connect_invalid = λ i e port s h. ground arith;
}

receive-flow :
    (rx buf : List ℕ) (st : State) (eof : Bool) (n : ℕ)
    → (receive rx buf st eof).0 ≡ ok n
    → rx ≡ take n (receive rx buf st eof).1 ++ (receive rx buf st eof).2
receive-flow [] buf st eof zero e = ground arith
receive-flow [] buf st eof (suc n) e = ground arith
receive-flow (b ∷ rest) [] st eof n e = ground arith
receive-flow (b ∷ rest) (c ∷ cs) st eof n e = ground arith

receive-kept :
    (rx buf : List ℕ) (st : State) (eof : Bool) (x : RecvError)
    → (receive rx buf st eof).0 ≡ err x
    → (receive rx buf st eof).2 ≡ rx
receive-kept [] buf st eof x e = ground arith
receive-kept (b ∷ rest) [] st eof x e = cc
receive-kept (b ∷ rest) (c ∷ cs) st eof x e = cc

transmit-flow :
    (buf : List ℕ) (s : Toy) (n : ℕ)
    → (transmit buf s).0 ≡ ok n
    → (transmit buf s).1.tx ≡ s.tx ++ take n buf
transmit-flow [] s n e = ground (arith, append-nil s.tx)
transmit-flow (c ∷ cs) s n e = ground (arith, append-nil s.tx)

transmit-kept :
    (buf : List ℕ) (s : Toy) (x : SendError)
    → (transmit buf s).0 ≡ err x
    → (transmit buf s).1.tx ≡ s.tx
transmit-kept [] s x e = ground arith
transmit-kept (c ∷ cs) s x e = ground arith

transmit-rx : (buf : List ℕ) (s : Toy) → (transmit buf s).1.rx ≡ s.rx
transmit-rx [] s = ground arith
transmit-rx (c ∷ cs) s = ground arith

unfoldable pub toy_queues : Queues toy
unfolding receive-flow receive-kept transmit-flow transmit-kept transmit-rx
toy_queues = record {
  received = λ s. s.rx;
  queued = λ s. s.tx;
  recv_slice_ok = λ buf s. receive-flow s.rx buf s.st s.eof;
  recv_slice_err = λ buf s. receive-kept s.rx buf s.st s.eof;
  recv_slice_queued = λ buf s. refl;
  send_slice_ok = transmit-flow;
  send_slice_err = transmit-kept;
  send_slice_received = transmit-rx;
  recv_waker_received = λ cx s. refl;
  recv_waker_queued = λ cx s. refl;
  send_waker_received = λ cx s. refl;
  send_waker_queued = λ cx s. refl;
}
