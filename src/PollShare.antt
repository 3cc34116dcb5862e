-- ===== src/PollShare.antt =====
-- src/poll_share.rs: `TokenProvider::lock`, and the store that a task on the socket API changes.
-- The RTIC resource behind the provider is the shared `Net`; the store also has the two globals
-- that `request_network_poll` of src/network.rs writes.
pub mod Reentry
use ra6m3_rtic.Prelude.{ℕ, ◌≡◌, Bool, true, false, Option, none, some, if◌then◌else◌}
use ra6m3_rtic.Smoltcp.{Smoltcp}

-- `network::Net`, the shared resource.
pub record Net (smol : Smoltcp) : Type 0 where
  pub iface : smol.Interface
  pub sockets : smol.SocketSet

pub record World (smol : Smoltcp) : Type 0 where
  pub net : Net smol
  -- the `RefCell` flag of the provider
  pub borrowed : Bool
  -- NETWORK_POLL_REQUEST
  pub poll_request : Bool
  -- how often the waker of `network_poller` was called
  pub wakes : ℕ

-- Code that reads and writes the store; `none` is a panic.
abbrev pub M : Smoltcp → Type 0 → Type 0
M smol A = World smol → Option (A × World smol)

abbrev pub pure : {smol : Smoltcp} {A : Type 0} → A → M smol A
pure a w = some (a, w)

infixl 5 ◌>>=◌ ◌>>◌
abbrev pub ◌>>=◌ : {smol : Smoltcp} {A B : Type 0} → M smol A → (A → M smol B) → M smol B
◌>>=◌ m f w = elim (m w) [ none ↦ none | some (a, w') ↦ f a w' ]

abbrev pub ◌>>◌ : {smol : Smoltcp} {A B : Type 0} → M smol A → M smol B → M smol B
m >> k = m >>= λ _. k

-- A step that is known to return is run, and the rest goes on from there.
pub >>=_lem :
    {smol : Smoltcp} {A B : Type 0} (m : M smol A) (f : A → M smol B) (w : World smol) {a : A}
    {w' : World smol}
    → m w ≡ some (a, w')
    → (m >>= f) w ≡ f a w'
>>=_lem m f w e = rw (e, ◌>>=◌)

-- The borrow taken by `borrow_mut` and given back when `lock` returns.
abbrev pub release :
    {smol : Smoltcp} {A : Type 0} → Option (A × World smol) → Option (A × World smol)
release none = none
release (some (a, w)) = some (a, record w { borrowed = false })

-- `TokenProvider::lock`: `borrow_mut` panics while the cell is borrowed.
unfoldable pub lock : {smol : Smoltcp} {A : Type 0} → M smol A → M smol A
lock body w = if w.borrowed then none else release (body (record w { borrowed = true }))
