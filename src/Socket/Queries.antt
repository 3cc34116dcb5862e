-- ===== src/Socket/Queries.antt =====
-- The queries of src/socket.rs only read.
use ra6m3_rtic.Prelude.{true, ◌≡◌, ◌⊎◌, inl, inr, none, some, arith, Bool-cases, Option-cases}
use ra6m3_rtic.Smoltcp.{Smoltcp}
use ra6m3_rtic.PollShare.{World}
use ra6m3_rtic.Socket.Types.{SocketInner}
use ra6m3_rtic.Socket.Access.{with}
use ra6m3_rtic.Socket.Frame.{Holds, with_lem}

module _ (smol : Smoltcp) where
  with_panics :
      {A : Type 0} (io : SocketInner smol) (f : smol.Socket → smol.Interface → A) (w : World smol)
      → (w.borrowed ≡ true) ⊎ (smol.get io.handle w.net.sockets ≡ none)
      → with smol io f w ≡ none
  unfolding with
  with_panics io f w h = ground arith

  -- A query answers what its function gives for the socket and the interface, and it leaves the
  -- store as it was, so that it neither asks the network to poll nor wakes the poller; it panics
  -- exactly if the provider is in use or the handle names no socket.
  pub with-cases :
      {A : Type 0} (io : SocketInner smol) (f : smol.Socket → smol.Interface → A) (w : World smol)
      → ((s : smol.Socket) × Holds smol io s w × (with smol io f w ≡ some (f s w.net.iface, w)))
        ⊎ (((w.borrowed ≡ true) ⊎ (smol.get io.handle w.net.sockets ≡ none))
            × (with smol io f w ≡ none))
  with-cases io f w = elim (Bool-cases w.borrowed) [
    | inl taken ↦ inr (inl taken, with_panics io f w (inl taken))
    | inr free ↦ elim (Option-cases (smol.get io.handle w.net.sockets)) [
      | inl gone ↦ inr (inr gone, with_panics io f w (inr gone))
      | inr (s, found) ↦
          let h : Holds smol io s w = record { free = free; found = found } in
          inl (s, h, with_lem smol io f w h)
    ]
  ]
