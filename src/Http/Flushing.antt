-- ===== src/Http/Flushing.antt =====
-- A poll of `flush` (src/socket.rs) under an invariant of its socket.
use mathlib.Core.Path.{subst}
use ra6m3_rtic.Prelude.{◌≡◌, ◌⊎◌, refl, sym, Bool, some, Result, ok, inl, inr}
use ra6m3_rtic.Smoltcp.{Smoltcp}
use ra6m3_rtic.PollShare.{World, pure, >>=_lem}
use ra6m3_rtic.Future.{ready, pending, stateless}
use ra6m3_rtic.Future.Laws.{Progress}
use ra6m3_rtic.Socket.Types.{SocketInner}
use ra6m3_rtic.Socket.Inner.{poll_flush}
use ra6m3_rtic.Socket.Io.{ServeError, after_flush}
use ra6m3_rtic.Socket.Frame.{Holds, settled}
use ra6m3_rtic.Socket.Flush.{IsFlushed, poll_flush_lem}

-- A poll of `flush` returns `Ok` under `Q`, or it is pending under `J`.
abbrev pub Flushes :
    {smol : Smoltcp}
    → SocketInner smol
    → smol.Waker
    → (World smol → Type 0)
    → (World smol → Type 0)
    → World smol
    → Type 0
Flushes {smol} io cx J Q w =
    (w' : World smol) × (((poll_flush smol io cx w ≡ some (ready (ok tt), w')) × Q w')
      ⊎ ((poll_flush smol io cx w ≡ some (pending, w')) × J w'))

-- From the socket before the poll.
pub flushes :
    {smol : Smoltcp} (io : SocketInner smol) (cx : smol.Waker) {J Q : World smol → Type 0}
    (w : World smol) {s : smol.Socket}
    → Holds smol io s w
    → (IsFlushed smol s → Q (settled smol io s w.net.iface w))
    → J (settled smol io (smol.register_send_waker cx s) w.net.iface w)
    → Flushes io cx J Q w
flushes {smol} io cx w {s} h q j = elim (poll_flush_lem smol io cx w h) [
  | inl (done, e) ↦ (settled smol io s w.net.iface w, inl (e, q done))
  | inr (_, e) ↦ (settled smol io (smol.register_send_waker cx s) w.net.iface w, inr (e, j))
]

module _ {smol : Smoltcp} (io : SocketInner smol) (cx : smol.Waker) {J : World smol → Type 0}
    (w : World smol) where
  pub flush-Progress :
      {Q : World smol → Type 0} (x : Unit {0})
      → Flushes io cx J Q w
      → Progress (λ _ w. J w) (λ r _ w. (r ≡ ok tt) × Q w) (stateless (poll_flush smol io cx) x w)
  flush-Progress {Q} x (w', inl (e, q)) =
      subst (Progress (λ _ w. J w) (λ r _ w. (r ≡ ok tt) × Q w))
        (sym (>>=_lem (poll_flush smol io cx) (λ r. pure (r, x)) w e)) (refl, q)
  flush-Progress {Q} x (w', inr (e, j)) =
      subst (Progress (λ _ w. J w) (λ r _ w. (r ≡ ok tt) × Q w))
        (sym (>>=_lem (poll_flush smol io cx) (λ r. pure (r, x)) w e)) j

  -- In the `or` a flush has no answer of its own.
  pub after_flush-Progress :
      {X : Type 0} (R : Result (Unit {0}) ServeError → X × Bool → World smol → Type 0) (x : X)
      → Flushes io cx J J w
      → Progress (λ _ w. J w) R (after_flush smol x (poll_flush smol io cx w))
  after_flush-Progress R x (w', inl (e, j)) =
      subst (λ p. Progress (λ _ w. J w) R (after_flush smol x p)) (sym e) j
  after_flush-Progress R x (w', inr (e, j)) =
      subst (λ p. Progress (λ _ w. J w) R (after_flush smol x p)) (sym e) j
