-- ===== src/Socket/Frame.antt =====
-- What one call of `with_mut` does to the store, for every closure.
use ra6m3_rtic.Prelude.{
  suc, true, false, ◌≡◌, ◌≢◌, ◌⊎◌, inl, inr, none, refl, Bool-cases, Option-cases, some, arith,
}
use mathlib.Core.Path.{subst}
use ra6m3_rtic.Smoltcp.{Smoltcp}
use ra6m3_rtic.PollShare.{World, pure, >>=_lem}
use ra6m3_rtic.Future.{Poll, stateless}
use ra6m3_rtic.Socket.Types.{SocketInner}
use ra6m3_rtic.Socket.Access.{Closure, with, with_mut, on_socket}

-- The documented behaviour of `SocketSet::get` and `get_mut`: a handle names one socket.
pub record SetLaws (smol : Smoltcp) : Type 0 where
  pub get-put_self :
      (h : smol.SocketHandle) (s t : smol.Socket) (set : smol.SocketSet)
      → smol.get h set ≡ some s
      → smol.get h (smol.put h t set) ≡ some t
  pub get-put_ne :
      (h k : smol.SocketHandle) (t : smol.Socket) (set : smol.SocketSet)
      → h ≢ k
      → smol.get k (smol.put h t set) ≡ smol.get k set

module _ (smol : Smoltcp) where
  -- The provider is free, and the handle names the socket `s`.
  pub record Holds (io : SocketInner smol) (s : smol.Socket) (w : World smol) : Type 0 where
    pub free : w.borrowed ≡ false
    pub found : smol.get io.handle w.net.sockets ≡ some s

  -- The store after a closure that left the socket `s` and the interface `i`.
  abbrev pub settled : SocketInner smol → smol.Socket → smol.Interface → World smol → World smol
  settled io s i w = record w {
    net = record { iface = i; sockets = smol.put io.handle s w.net.sockets };
    borrowed = false;
    poll_request = true;
    wakes = suc w.wakes;
  }

  pub with_mut_lem :
      {A : Type 0} (io : SocketInner smol) (f : Closure smol A) (w : World smol)
      {s s' : smol.Socket} {i' : smol.Interface} {a : A}
      → Holds io s w
      → f s w.net.iface ≡ some (a, s', i')
      → with_mut smol io f w ≡ some (a, settled io s' i' w)
  unfolding with_mut
  with_mut_lem io f w h e = ground (arith, h.free, h.found)

  -- The same for a closure that only touches the socket.
  pub on_socket_lem :
      {A : Type 0} (io : SocketInner smol) (f : smol.Socket → A × smol.Socket) (w : World smol)
      → {s : smol.Socket} → Holds io s w
      → with_mut smol io (on_socket smol f) w ≡ some ((f s).0, settled io (f s).1 w.net.iface w)
  on_socket_lem io f w h = with_mut_lem io (on_socket smol f) w h refl

  -- And for a poll function that such a closure makes.
  pub on_socket-stateless :
      {A X : Type 0} (io : SocketInner smol) (f : smol.Socket → Poll A × smol.Socket) (x : X)
      (w : World smol) {s : smol.Socket}
      → Holds io s w
      → stateless (with_mut smol io (on_socket smol f)) x w
        ≡ some (((f s).0, x), settled io (f s).1 w.net.iface w)
  on_socket-stateless io f x w h = ground (arith, on_socket_lem io f w h)

  pub with_mut-stateless :
      {A X : Type 0} (io : SocketInner smol) (f : Closure smol (Poll A)) (x : X) (w : World smol)
      {s s' : smol.Socket} {i' : smol.Interface} {a : Poll A}
      → Holds io s w
      → f s w.net.iface ≡ some (a, s', i')
      → stateless (with_mut smol io f) x w ≡ some ((a, x), settled io s' i' w)
  with_mut-stateless io f x w h e =
      >>=_lem (with_mut smol io f) (λ r. pure (r, x)) w (with_mut_lem io f w h e)

  -- The provider is free again, and the handle names the socket that the closure left.
  pub settled-Holds :
      SetLaws smol
      → (io : SocketInner smol) (t : smol.Socket) (i : smol.Interface) (w : World smol)
      → {s : smol.Socket} → Holds io s w
      → Holds io t (settled io t i w)
  settled-Holds laws io t i w {s} h = record {
    free = refl;
    found = laws.get-put_self io.handle s t w.net.sockets h.found;
  }

  -- The other outcomes are panics.
  pub with_mut_panics :
      {A : Type 0} (io : SocketInner smol) (f : Closure smol A) (w : World smol)
      → (w.borrowed ≡ true) ⊎ (smol.get io.handle w.net.sockets ≡ none)
      → with_mut smol io f w ≡ none
  unfolding with_mut
  with_mut_panics io f w h = ground arith

  pub with_mut_closure_panics :
      {A : Type 0} (io : SocketInner smol) (f : Closure smol A) (w : World smol) {s : smol.Socket}
      → Holds io s w
      → f s w.net.iface ≡ none
      → with_mut smol io f w ≡ none
  unfolding with_mut
  with_mut_closure_panics io f w h e = ground (arith, h.free, h.found)

  pub with_lem :
      {A : Type 0} (io : SocketInner smol) (f : smol.Socket → smol.Interface → A) (w : World smol)
      {s : smol.Socket}
      → Holds io s w
      → with smol io f w ≡ some (f s w.net.iface, w)
  unfolding with
  with_lem io f w h = ground (arith, h.free, h.found)

  -- What a call of `with_mut` that returned `a` and left `w'` has done.
  pub record Serviced {A : Type 0} (io : SocketInner smol) (f : Closure smol A) (w : World smol)
      (a : A) (w' : World smol) : Type 0 where
    pub before : smol.Socket
    pub after : smol.Socket
    pub was_free : w.borrowed ≡ false
    pub was_there : smol.get io.handle w.net.sockets ≡ some before
    pub ran : f before w.net.iface ≡ some (a, after, w'.net.iface)
    pub stored : smol.get io.handle w'.net.sockets ≡ some after
    pub others :
        (k : smol.SocketHandle)
        → io.handle ≢ k
        → smol.get k w'.net.sockets ≡ smol.get k w.net.sockets
    pub is_free : w'.borrowed ≡ false
    pub requested : w'.poll_request ≡ true
    pub woken : w'.wakes ≡ suc w.wakes

  settled-Serviced :
      SetLaws smol
      → {A : Type 0} (io : SocketInner smol) (f : Closure smol A) (w : World smol)
      → {s s' : smol.Socket} {i' : smol.Interface} {a : A} → Holds io s w
      → f s w.net.iface ≡ some (a, s', i')
      → Serviced io f w a (settled io s' i' w)
  settled-Serviced laws io f w {s} {s'} h e = record {
    before = s;
    after = s';
    was_free = h.free;
    was_there = h.found;
    ran = e;
    stored = laws.get-put_self io.handle s s' w.net.sockets h.found;
    others = λ k ne. laws.get-put_ne io.handle k s' w.net.sockets ne;
    is_free = refl;
    requested = refl;
    woken = refl;
  }

  -- A call of `with_mut` that returns had the provider to itself and found the socket: the closure
  -- ran once, on that socket, and what it left is stored; every other socket is as it was, the
  -- provider is free again, and the network is asked to poll by the flag and one wake.
  pub with_mut-Serviced :
      SetLaws smol
      → {A : Type 0} (io : SocketInner smol) (f : Closure smol A) (w : World smol)
      → {a : A} {w' : World smol} → with_mut smol io f w ≡ some (a, w')
      → Serviced io f w a w'
  with_mut-Serviced laws {A} io f w {a} {w'} e = elim (Bool-cases w.borrowed) [
    | inl taken ↦ cc (with_mut_panics io f w (inl taken))
    | inr free ↦ elim (Option-cases (smol.get io.handle w.net.sockets)) [
      | inl gone ↦ cc (with_mut_panics io f w (inr gone))
      | inr (s, found) ↦ elim (Option-cases (f s w.net.iface)) [
        | inl stuck ↦
            cc (with_mut_closure_panics io f w (record { free = free; found = found }) stuck)
        | inr ((b, s', i'), ran) ↦
            let h : Holds io s w = record { free = free; found = found } in
            let q : ◌≡◌ {A = A × World smol} (b, settled io s' i' w) (a, w') =
              cc (with_mut_lem io f w h ran) in
            subst (λ (r : A × World smol). Serviced io f w r.0 r.1) q
              (settled-Serviced laws io f w h ran)
      ]
    ]
  ]
