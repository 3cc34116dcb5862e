-- ===== src/Network/Request.antt =====
-- src/network.rs: the request flag, as code that runs in the store of PollShare calls it.
use ra6m3_rtic.Prelude.{suc, true, some}
use ra6m3_rtic.Smoltcp.{Smoltcp}
use ra6m3_rtic.PollShare.{M}

-- `request_network_poll`: the flag is stored, then the poller is woken. (`POLL_NETWORK` of
-- src/main.rs is this function.)
unfoldable pub request_network_poll : {smol : Smoltcp} → M smol (Unit {0})
request_network_poll w = some (tt, record w { poll_request = true; wakes = suc w.wakes })
