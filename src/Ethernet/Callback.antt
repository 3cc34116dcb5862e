-- ===== src/Ethernet/Callback.antt =====
-- src/net_ra6m3.rs: `NetCallback`, which the Ethernet driver calls in its interrupt, and the
-- requests of Network.Flag that it makes.
use ra6m3_rtic.Prelude.{◌⊎◌, ◌≡◌, refl, Bool, true, false, ◌||◌, arith, if◌then◌else◌}
use ra6m3_rtic.Network.Flag.{
  Poller, polls_network, suspended, store_request, wake, dispatch, poll_or, stores, wakes, Reach,
  next, spawned,
}
use ra6m3_rtic.Network.NoLostRequest.{stored_request_served}

pub record InterruptCause : Type 0 where
  pub receive : Bool
  pub transmits : Bool
  pub went_up : Bool

-- `receive || transmits || went_up`
abbrev pub polls_for : InterruptCause → Bool
polls_for cause = cause.receive || cause.transmits || cause.went_up

-- `POLL_NETWORK()`, which nothing interrupts that touches the request.
unfoldable pub poll_network_now : Poller → Poller
unfolding store_request wake
poll_network_now p = wake p.storing (store_request p)

-- `call_with_block`; `update_rx_buffers` is the driver's.
unfoldable pub call_with_block :
    {Ether : Type 0} → (Ether → Ether) → InterruptCause → Ether × Poller → Ether × Poller
unfolding poll_network_now
call_with_block update_rx_buffers cause (block, p) =
    (update_rx_buffers block, if polls_for cause then poll_network_now p else p)

-- An interrupt in a state that the system can reach is two of its steps.
poll_network_now-Reach : {p : Poller} → Reach spawned p → Reach spawned (poll_network_now p)
unfolding poll_network_now
poll_network_now-Reach {p} r = next (next r stores) (wakes p.storing refl)

polls_for-true :
    (cause : InterruptCause)
    → (cause.receive ≡ true) ⊎ (cause.transmits ≡ true) ⊎ (cause.went_up ≡ true)
    → polls_for cause ≡ true
polls_for-true cause why = ground arith

-- In every state that the system can reach in which the poller is suspended and no other caller is
-- between its store and its wake, an interrupt for a received frame, a transmitted frame or a link
-- that went up wakes the poller, whose next poll enters `poll_network` and takes the request, whether
-- the timer is due or not. The driver's `update_rx_buffers`, of which nothing is assumed, has been
-- called once on its block.
pub interrupt_served :
    {Ether : Type 0} (update_rx_buffers : Ether → Ether) (block : Ether) (cause : InterruptCause)
    {p : Poller}
    → Reach spawned p
    → p.phase ≡ suspended
    → p.storing ≡ 0
    → (cause.receive ≡ true) ⊎ (cause.transmits ≡ true) ⊎ (cause.went_up ≡ true)
    → (due : Bool)
    → let (block', p') = call_with_block update_rx_buffers cause (block, p) in
      (block' ≡ update_rx_buffers block)
      × (p'.woken ≡ true)
      × ((poll_or due (dispatch p')).phase ≡ polls_network)
      × ((poll_or due (dispatch p')).request ≡ false)
      × ((poll_or due (dispatch p')).owed ≡ 0)
unfolding call_with_block poll_network_now store_request wake
interrupt_served update block cause {p} r idle alone why due = ground (
  arith,
  polls_for-true cause why,
  stored_request_served (poll_network_now-Reach r) idle alone refl due,
)
