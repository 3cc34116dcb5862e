-- ===== src/Http/Rounds.antt =====
-- When the `unwrap` of src/http.rs panics.
use ra6m3_rtic.Prelude.{◌≡◌, ◌∙◌, refl, ap, none, some, List, ◌∷◌, ok, err}
use ra6m3_rtic.Smoltcp.{Smoltcp, ListenError}
use ra6m3_rtic.PollShare.{World}
use ra6m3_rtic.Socket.Types.{SocketInner}
use ra6m3_rtic.Socket.Tcp.{accept, start_listen, after_listen}
use ra6m3_rtic.Socket.Frame.{Holds, settled, on_socket_lem}
use ra6m3_rtic.Http.Task.{Connection, after_accept, http}

module _ (smol : Smoltcp) (port : smol.IpListenEndpoint) where
  -- smoltcp's `listen` on the port would succeed on the socket that the provider has.
  abbrev pub Listenable : SocketInner smol → World smol → Type 0
  Listenable io w = (s : smol.Socket) × Holds smol io s w × ((smol.listen_on port s).0 ≡ ok tt)

  pub start_listen_lem :
      (io : SocketInner smol) (w : World smol) {s : smol.Socket}
      → Holds smol io s w
      → start_listen smol io port w
        ≡ some ((smol.listen_on port s).0, settled smol io (smol.listen_on port s).1 w.net.iface w)
  unfolding start_listen
  start_listen_lem io w h = on_socket_lem smol io (smol.listen_on port) w h

  -- If smoltcp's `listen` refuses the socket, the loop panics in its next round, whatever the
  -- connections are.
  pub http_refused :
      (handle : smol.SocketHandle) (cx : smol.Waker) (c : Connection smol)
      (cs : List (Connection smol)) (w : World smol) (s : smol.Socket) (e : ListenError)
      → Holds smol (record { handle = handle }) s w
      → (smol.listen_on port s).0 ≡ err e
      → http smol handle port cx (c ∷ cs) w ≡ none
  unfolding http accept
  http_refused handle cx c cs w s e h refused =
      let io : SocketInner smol = record { handle = handle } in
      ap
        (λ o.
          after_accept smol c.serve (http smol handle port cx cs)
            (after_listen smol (record { io = io }) cx c.waiting o))
        (start_listen_lem io w h)
      ∙ rw refused refl
