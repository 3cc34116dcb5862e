-- ===== src/Mqtt/Subscribe.antt =====
-- src/mqtt.rs: the subscription, and the loop that polls until it is acknowledged. The connection of
-- minimq is a parameter.
use ra6m3_rtic.Prelude.{ℕ, zero, suc, Bool, Option, none, some, Result, ok, err, if◌then◌else◌}
use ra6m3_rtic.Smoltcp.{Smoltcp}
use ra6m3_rtic.PollShare.{M, pure, ◌>>=◌}

-- `minimq::Connection`, and what `subscribe` returns.
pub record Minimq (smol : Smoltcp) (E : Type 0) : Type 1 where
  pub Connection : Type 0
  pub Operation : Type 0
  pub subscribe : Connection → M smol (Result Operation E × Connection)
  pub is_pending : Operation → Connection → Bool
  pub poll : Connection → M smol (Result (Unit {0}) E × Connection)

module _ (smol : Smoltcp) {E : Type 0} (minimq : Minimq smol E) where
  -- How the loop ends: `none` after the last poll that the fuel allows, and otherwise with the error
  -- that `?` returns, if there is one.
  abbrev pub Outcome : Type 0
  Outcome = Option (Option E) × minimq.Connection

  abbrev pub after_poll :
      (minimq.Connection → M smol Outcome)
      → Result (Unit {0}) E × minimq.Connection
      → M smol Outcome
  after_poll again (ok _, conn) = again conn
  after_poll again (err e, conn) = pure (some (some e), conn)

  -- `while conn.is_pending(&sub) { conn.poll().await?; }`
  unfoldable pub poll_until : ℕ → minimq.Operation → minimq.Connection → M smol Outcome
  poll_until zero sub conn = pure (none, conn)
  poll_until (suc n) sub conn =
      let again = poll_until n sub in
      if minimq.is_pending sub conn
      then (do r ← minimq.poll conn; after_poll again r)
      else pure (some none, conn)

  abbrev pub after_subscribe : ℕ → Result minimq.Operation E × minimq.Connection → M smol Outcome
  after_subscribe n (ok sub, conn) = poll_until n sub conn
  after_subscribe n (err e, conn) = pure (some (some e), conn)

  -- `let sub = conn.subscribe(…).await?;` and the loop
  unfoldable pub subscribe : ℕ → minimq.Connection → M smol Outcome
  unfolding poll_until
  subscribe n conn = do r ← minimq.subscribe conn; after_subscribe n r
