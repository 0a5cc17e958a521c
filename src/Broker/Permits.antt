-- ===== src/Broker/Permits.antt =====
-- The rate limits that a request to publish passes in src/mq/broker.cpp.
use proto_msg_queue.Prelude.{ℕ, Option, none, some, if◌then◌else◌}
use proto_msg_queue.Common.RateLimiter.{Double, TokenBucket, acquire}
use proto_msg_queue.Network.Connection.Permits.{acquire_publish_permit}
use proto_msg_queue.Broker.{Broker, Peer, Readings}

-- Which limit, if any, refuses the request.
pub data Permit : Type 0 where
  granted conn_limited globally_limited : Permit

module _ {W : Type 0} (d : Double W) where
  -- `global_publish_limiter_ && !global_publish_limiter_->Acquire(tokens)`
  unfoldable pub global_permit : ℕ → ℕ → Option (TokenBucket W) → Permit × Option (TokenBucket W)
  global_permit tokens now none = (granted, none)
  global_permit tokens now (some b) =
      let (ok, b') = acquire d tokens now b in (if ok then granted else globally_limited, some b')

  -- The two checks, the connection's before the broker's.
  unfoldable pub acquire_permits : ℕ → Readings → Peer W → Broker W → Permit × Peer W × Broker W
  acquire_permits tokens r conn b =
      if b.config_manager.global_config.rate_limit_enabled
      then (let (ok, limiter) =
            acquire_publish_permit d tokens r.limiter_made r.limiter_now conn.config
              conn.publish_limiter in
          let conn' = record conn { publish_limiter = limiter } in
          let (permit, global) = global_permit tokens r.global_now b.global_publish_limiter in
          if ok
          then (permit, conn', record b { global_publish_limiter = global })
          else (conn_limited, conn', b))
      else (granted, conn, b)
