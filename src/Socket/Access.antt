-- ===== src/Socket/Access.antt =====
-- src/socket.rs: `SocketInner::with` and `with_mut`, through which every method reaches the socket.
use ra6m3_rtic.Prelude.{Option, none, some}
use ra6m3_rtic.Smoltcp.{Smoltcp}
use ra6m3_rtic.PollShare.{M, pure, ◌>>=◌, ◌>>◌, lock}
use ra6m3_rtic.Network.Request.{request_network_poll}
use ra6m3_rtic.Socket.Types.{SocketInner}

module _ (smol : Smoltcp) where
  -- `net.sockets.get(handle)`, with the interface.
  abbrev pub borrow_socket : smol.SocketHandle → M smol (smol.Socket × smol.Interface)
  borrow_socket h w = elim (smol.get h w.net.sockets) [
    | none ↦ none
    | some s ↦ some ((s, w.net.iface), w)
  ]

  -- What the closure left behind the two `&mut`.
  abbrev pub write_back : smol.SocketHandle → smol.Socket → smol.Interface → M smol (Unit {0})
  write_back h s i w =
      some (tt, record w { net = record { iface = i; sockets = smol.put h s w.net.sockets } })

  -- The closure of `with_mut`: it may panic, as `connect` does.
  abbrev pub Closure : Type 0 → Type 0
  Closure A = smol.Socket → smol.Interface → Option (A × smol.Socket × smol.Interface)

  abbrev pub run_closure : {A : Type 0} → smol.SocketHandle → Closure A → M smol A
  run_closure h f w = elim (smol.get h w.net.sockets) [
    | none ↦ none
    | some s ↦ elim (f s w.net.iface) [
      | none ↦ none
      | some (a, s', i') ↦ (write_back h s' i' >> pure a) w
    ]
  ]

  -- `SocketInner::with`
  unfoldable pub with :
      {A : Type 0} → SocketInner smol → (smol.Socket → smol.Interface → A) → M smol A
  unfolding lock
  with io f = lock (do (s, i) ← borrow_socket io.handle; pure (f s i))

  -- `SocketInner::with_mut`: the closure, and then the network is asked to poll.
  unfoldable pub with_mut : {A : Type 0} → SocketInner smol → Closure A → M smol A
  unfolding lock request_network_poll
  with_mut io f = lock (do res ← run_closure io.handle f; request_network_poll; pure res)

  -- A closure that does not touch the interface and does not panic.
  abbrev pub on_socket : {A : Type 0} → (smol.Socket → A × smol.Socket) → Closure A
  on_socket f s i = let (a, s') = f s in some (a, s', i)
