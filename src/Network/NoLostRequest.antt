-- ===== src/Network/NoLostRequest.antt =====
-- No request to poll the network is lost, in any interleaving of the steps of Network.Flag.
use ra6m3_rtic.Prelude.{Bool, ◌<◌, ◌≡◌, ◌≢◌, ◌⊎◌, true, false, arith}
use ra6m3_rtic.Network.Flag.{
  suspended, polls_network, Poller, store_request, wake, ring, dispatch, poll_or, finish_poll, Step,
  stores, wakes, rings, dispatches, polls, finishes, Reach, here, next, spawned,
}

-- What holds between any two steps.
pub record IsLive (p : Poller) : Type 0 where
  pub owed_requested : 0 < p.owed → p.request ≡ true
  pub requested_noticed :
      p.request ≡ true → (p.woken ≡ true) ⊎ (0 < p.storing) ⊎ (p.phase ≢ suspended)

Step-IsLive : {p q : Poller} → Step p q → IsLive p → IsLive q
unfolding store_request wake ring dispatch poll_or finish_poll
Step-IsLive stores l = ground arith
Step-IsLive (wakes others e) l = ground arith
Step-IsLive rings l = ground arith
Step-IsLive (dispatches e f) l = ground arith
Step-IsLive (polls due e) l = ground arith
Step-IsLive (finishes e) l = ground arith

Reach-IsLive : {p q : Poller} → IsLive p → Reach p q → IsLive q
Reach-IsLive l here = l
Reach-IsLive l (next r s) = Step-IsLive s (Reach-IsLive l r)

spawned-IsLive : IsLive spawned
unfolding spawned
spawned-IsLive = ground arith

-- In every state that the system can reach, if the poller is suspended, is not woken and no caller
-- is between its store and its wake, then no request is outstanding: the flag is down, and
-- `poll_network` was entered after the last request.
pub no_lost_request :
    {p : Poller}
    → Reach spawned p
    → p.phase ≡ suspended
    → p.woken ≡ false
    → p.storing ≡ 0
    → (p.request ≡ false) × (p.owed ≡ 0)
no_lost_request {p} r idle quiet alone = ground (arith, Reach-IsLive spawned-IsLive r)

-- In every state that the system can reach, if a request is stored while the poller is suspended
-- and no caller is between its store and its wake, then the poller has been woken, and its next
-- poll enters `poll_network` and takes the request, whether the timer is due or not.
pub stored_request_served :
    {p : Poller}
    → Reach spawned p
    → p.phase ≡ suspended
    → p.storing ≡ 0
    → p.request ≡ true
    → (due : Bool)
    → (p.woken ≡ true)
      × ((poll_or due (dispatch p)).phase ≡ polls_network)
      × ((poll_or due (dispatch p)).request ≡ false)
      × ((poll_or due (dispatch p)).owed ≡ 0)
unfolding poll_or dispatch
stored_request_served {p} r idle alone asked due = ground (arith, Reach-IsLive spawned-IsLive r)
