-- ===== src/Network/Flag.antt =====
-- src/network.rs: NETWORK_POLL_REQUEST and the task that waits for it, as atomic steps of the
-- poller and of everything that may interrupt it or that it interrupts.
use ra6m3_rtic.Prelude.{ℕ, suc, ◌≡◌, Bool, true, false}

-- Where the poller task stands: suspended in its `.await`, about to poll the two futures of the
-- `or`, or past it, in `poll_network`.
pub data Phase : Type 0 where
  suspended polls_futures polls_network : Phase

pub record Poller : Type 0 where
  -- NETWORK_POLL_REQUEST
  pub request : Bool
  -- the poller was woken and has not run since
  pub woken : Bool
  -- callers of `request_network_poll` between its store and its wake
  pub storing : ℕ
  pub phase : Phase
  -- ghost: requests stored since `poll_network` was last entered
  pub owed : ℕ

-- `NETWORK_POLL_REQUEST.store(true, Release)`
unfoldable pub store_request : Poller → Poller
store_request p = record p { request = true; storing = suc p.storing; owed = suc p.owed }

-- `network_poller::waker().wake()`
unfoldable pub wake : ℕ → Poller → Poller
wake others p = record p { woken = true; storing = others }

-- The alarm of the timer that `wait_until` waits for.
unfoldable pub ring : Poller → Poller
ring p = record p { woken = true }

-- The executor polls a woken task.
unfoldable pub dispatch : Poller → Poller
dispatch p = record p { woken = false; phase = polls_futures }

-- `wait_until_network_poll_requested`: the swap, and its answer; a request makes the `or` ready.
unfoldable pub take_request : Poller → Bool × Poller
take_request p = (p.request, record p { request = false })

-- The two answers that make the `or` ready; with neither the task is suspended.
abbrev pub enter : Bool → Bool → Poller → Poller
enter true due p = record p { phase = polls_network; owed = 0 }
enter false true p = record p { phase = polls_network; owed = 0 }
enter false false p = record p { phase = suspended }

-- `or(requested, poll_at)` is polled: a request is taken first, then the timer is looked at.
unfoldable pub poll_or : Bool → Poller → Poller
unfolding take_request
poll_or timer_due p = let (requested, p') = take_request p in enter requested timer_due p'

-- `poll_network` returns, and the loop goes round to the next `or`.
unfoldable pub finish_poll : Poller → Poller
finish_poll p = record p { phase = polls_futures }

-- Any interleaving of the callers, the executor and the task.
pub data Step (p : Poller) : Poller → Type 0 where
  stores : Step p (store_request p)
  wakes : (others : ℕ) → p.storing ≡ suc others → Step p (wake others p)
  rings : Step p (ring p)
  dispatches : p.phase ≡ suspended → p.woken ≡ true → Step p (dispatch p)
  polls : (timer_due : Bool) → p.phase ≡ polls_futures → Step p (poll_or timer_due p)
  finishes : p.phase ≡ polls_network → Step p (finish_poll p)

pub data Reach (p : Poller) : Poller → Type 0 where
  here : Reach p p
  next : {q r : Poller} → Reach p q → Step q r → Reach p r

-- The task is spawned in `init`, so its first poll is due; a request may already be stored.
unfoldable pub spawned : Poller
spawned = record { request = false; woken = true; storing = 0; phase = suspended; owed = 0 }
