-- ===== src/Socket/Duplex.antt =====
-- The halves of a socket of src/socket.rs are the two ends of a full-duplex stream.
use mathlib.Core.Path.{subst}
use mathlib.Core.List.{append_assoc, append-nil}
use ra6m3_rtic.Prelude.{
  ℕ, zero, suc, ◌≡◌, ◌∙◌, refl, sym, ap, Bool, true, false, Option, none, some, List, [], ◌∷◌, ◌++◌,
  Result, ok, err,
}
use ra6m3_rtic.Prelude.Lists.{is_empty}
use ra6m3_rtic.Smoltcp.{Smoltcp, RecvError, SendError}
use ra6m3_rtic.PollShare.{World}
use ra6m3_rtic.Socket.Types.{SocketInner, TcpSocket, split}
use ra6m3_rtic.Socket.Inner.{read_outcome, write_outcome, read_step, write_step}
use ra6m3_rtic.Socket.Frame.{SetLaws, Holds, on_socket_lem, settled-Holds}
use ra6m3_rtic.Socket.Stream.{
  Queues, Event, reads, writes, network, delivered, accepted, before, after_read, after_write, play,
  arrivals, departures, AllMove,
}

module _ (smol : Smoltcp) (q : Queues smol) where
  open q use {received, queued}

  -- The outcome of a read hands over what `recv_slice` took off the receive buffer.
  read_outcome-flow :
      (cx : smol.Waker) (buf : List ℕ) (s : smol.Socket) (b : Bool) (r : Result ℕ RecvError)
      → (smol.recv_slice buf s).0 ≡ r
      → let (_, buf', s') = smol.recv_slice buf s in
        let (p, t) = read_outcome smol cx b r s' in
        (received s ≡ delivered (p, buf') ++ received t) × (queued t ≡ queued s)
  read_outcome-flow cx buf s true (ok zero) e =
      (q.recv_slice_ok buf s 0 e, q.recv_slice_queued buf s)
  read_outcome-flow cx buf s false (ok zero) e = (
    q.recv_slice_ok buf s 0 e ∙ sym (q.recv_waker_received cx (smol.recv_slice buf s).2),
    q.recv_waker_queued cx (smol.recv_slice buf s).2 ∙ q.recv_slice_queued buf s,
  )
  read_outcome-flow cx buf s true (ok (suc n)) e =
      (q.recv_slice_ok buf s (suc n) e, q.recv_slice_queued buf s)
  read_outcome-flow cx buf s false (ok (suc n)) e =
      (q.recv_slice_ok buf s (suc n) e, q.recv_slice_queued buf s)
  read_outcome-flow cx buf s true (err RecvError.finished) e =
      (sym (q.recv_slice_err buf s RecvError.finished e), q.recv_slice_queued buf s)
  read_outcome-flow cx buf s false (err RecvError.finished) e =
      (sym (q.recv_slice_err buf s RecvError.finished e), q.recv_slice_queued buf s)
  read_outcome-flow cx buf s true (err RecvError.invalid_state) e =
      (sym (q.recv_slice_err buf s RecvError.invalid_state e), q.recv_slice_queued buf s)
  read_outcome-flow cx buf s false (err RecvError.invalid_state) e =
      (sym (q.recv_slice_err buf s RecvError.invalid_state e), q.recv_slice_queued buf s)

  write_outcome-flow :
      (cx : smol.Waker) (buf : List ℕ) (s : smol.Socket) (r : Result ℕ SendError)
      → (smol.send_slice buf s).0 ≡ r
      → let (p, t) = write_outcome smol cx r (smol.send_slice buf s).1 in
        (received t ≡ received s) × (queued t ≡ queued s ++ accepted buf p)
  write_outcome-flow cx buf s (ok zero) e = (
    q.send_waker_received cx (smol.send_slice buf s).1 ∙ q.send_slice_received buf s,
    q.send_waker_queued cx (smol.send_slice buf s).1 ∙ q.send_slice_ok buf s 0 e,
  )
  write_outcome-flow cx buf s (ok (suc n)) e =
      (q.send_slice_received buf s, q.send_slice_ok buf s (suc n) e)
  write_outcome-flow cx buf s (err SendError.invalid_state) e = (
    q.send_slice_received buf s,
    q.send_slice_err buf s SendError.invalid_state e ∙ sym (append-nil (queued s)),
  )

  -- The socket that the provider has at the end, and the two streams up to then.
  abbrev pub Streams :
      SocketInner smol
      → smol.Socket
      → List (Event smol)
      → Option ((List ℕ × List ℕ) × World smol)
      → Type 0
  Streams io s es none = ⊥
  Streams io s es (some ((got, put), w)) =
      (t : smol.Socket) × Holds smol io t w
      × (received s ++ arrivals smol es ≡ got ++ received t)
      × (queued s ++ put ≡ departures smol es ++ queued t)

  read_before :
      (io : SocketInner smol) (s s' : smol.Socket) (cx : smol.Waker) (buf : List ℕ)
      (es : List (Event smol)) (got : List ℕ) (o : Option ((List ℕ × List ℕ) × World smol))
      → received s ≡ got ++ received s'
      → queued s' ≡ queued s
      → Streams io s' es o
      → Streams io s (reads cx buf ∷ es) (before smol got [] o)
  read_before io s s' cx buf es got none rc qu h = h
  read_before io s s' cx buf es got (some ((got', put'), w)) rc qu (t, h, rs, qs) = (
    t,
    h,
    ap (λ l. l ++ arrivals smol es) rc
        ∙ append_assoc got (received s') (arrivals smol es)
        ∙ ap (λ l. got ++ l) rs
        ∙ sym (append_assoc got got' (received t)),
    ap (λ l. l ++ put') (sym qu) ∙ qs,
  )

  write_before :
      (io : SocketInner smol) (s s' : smol.Socket) (cx : smol.Waker) (buf : List ℕ)
      (es : List (Event smol)) (put : List ℕ) (o : Option ((List ℕ × List ℕ) × World smol))
      → received s' ≡ received s
      → queued s' ≡ queued s ++ put
      → Streams io s' es o
      → Streams io s (writes cx buf ∷ es) (before smol [] put o)
  write_before io s s' cx buf es put none rc qu h = h
  write_before io s s' cx buf es put (some ((got', put'), w)) rc qu (t, h, rs, qs) = (
    t,
    h,
    ap (λ l. l ++ arrivals smol es) (sym rc) ∙ rs,
    sym (append_assoc (queued s) put put') ∙ ap (λ l. l ++ put') (sym qu) ∙ qs,
  )

  network_before :
      (io : SocketInner smol) (s s' : smol.Socket) (arrived left : List ℕ)
      (env : World smol → World smol) (es : List (Event smol))
      (o : Option ((List ℕ × List ℕ) × World smol))
      → received s' ≡ received s ++ arrived
      → queued s ≡ left ++ queued s'
      → Streams io s' es o
      → Streams io s (network arrived left env ∷ es) o
  network_before io s s' arrived left env es none rc qu h = h
  network_before io s s' arrived left env es (some ((got, put), w)) rc qu (t, h, rs, qs) = (
    t,
    h,
    sym (append_assoc (received s) arrived (arrivals smol es))
        ∙ ap (λ l. l ++ arrivals smol es) (sym rc)
        ∙ rs,
    ap (λ l. l ++ put) qu
        ∙ append_assoc left (queued s') put
        ∙ ap (λ l. left ++ l) qs
        ∙ sym (append_assoc left (departures smol es) (queued t)),
  )

  -- However the polls of a reading task and of a writing task, each on its half of the socket, and
  -- the changes that the network makes are interleaved, nothing panics, and both directions are
  -- streams: the octets read are, in order and with none lost or doubled, the first of those that
  -- were in the receive buffer or came in, and those still in it follow; the octets that left the
  -- transmit buffer are likewise the first of those that were in it or were written. The changes
  -- of the network keep the socket in place.
  pub play-Streams :
      SetLaws smol
      → (sock : TcpSocket smol) (es : List (Event smol)) (w : World smol) (s : smol.Socket)
      → AllMove smol q sock.io es
      → Holds smol sock.io s w
      → Streams sock.io s es (play smol (split sock).0 (split sock).1 es w)
  unfolding play split
  play-Streams sets sock [] w s m h = (s, h, append-nil (received s), append-nil (queued s))
  play-Streams sets sock (reads cx buf ∷ es) w s m h =
      let io = sock.io in
      let (r, buf', s') = smol.recv_slice buf s in
      let (p, t) = read_outcome smol cx (is_empty buf) r s' in
      let (rc, qu) = read_outcome-flow cx buf s (is_empty buf) r refl in
      subst
        (λ o.
          Streams io s (reads cx buf ∷ es)
            (after_read smol (play smol (split sock).0 (split sock).1 es) o))
        (sym (on_socket_lem smol io (read_step smol cx buf) w h))
        (read_before io s t cx buf es (delivered (p, buf')) _ rc qu
          (play-Streams sets sock es _ t m (settled-Holds smol sets io t w.net.iface w h)))
  play-Streams sets sock (writes cx buf ∷ es) w s m h =
      let io = sock.io in
      let (r, s') = smol.send_slice buf s in
      let (p, t) = write_outcome smol cx r s' in
      let (rc, qu) = write_outcome-flow cx buf s r refl in
      subst
        (λ o.
          Streams io s (writes cx buf ∷ es)
            (after_write smol buf (play smol (split sock).0 (split sock).1 es) o))
        (sym (on_socket_lem smol io (write_step smol cx buf) w h))
        (write_before io s t cx buf es (accepted buf p) _ rc qu
          (play-Streams sets sock es _ t m (settled-Holds smol sets io t w.net.iface w h)))
  play-Streams sets sock (network arrived left env ∷ es) w s (moves, m) h =
      let (s', h', rc, qu) = moves w s h in
      network_before sock.io s s' arrived left env es _ rc qu
        (play-Streams sets sock es (env w) s' m h')
