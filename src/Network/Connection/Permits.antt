-- ===== src/Network/Connection/Permits.antt =====
-- The publish limiter of src/network/connection.cpp, which a connection makes when it is first used,
-- and its time of last activity.
use proto_msg_queue.Prelude.{ℕ, Bool, true, false, not, Option, none, some, if◌then◌else◌}
use proto_msg_queue.Common.Config.{BrokerConfig}
use proto_msg_queue.Common.RateLimiter.{Double, TokenBucket, make_bucket, acquire, set_rate}
use proto_msg_queue.Network.Connection.{Connection}

-- `UpdateLastActiveTime` and `GetLastActiveTime`
unfoldable pub update_last_active_time : ℕ → Connection → Connection
update_last_active_time now_ms c = record c { last_active_ms = now_ms }

unfoldable pub get_last_active_time : Connection → ℕ
get_last_active_time c = c.last_active_ms

-- `config_ != nullptr && !config_->rate_limit_enabled`
unfoldable pub is_unlimited : Option BrokerConfig → Bool
is_unlimited none = false
is_unlimited (some config) = not config.rate_limit_enabled

-- The rate and the burst of a connection's own limiter
unfoldable pub conn_rate : Option BrokerConfig → ℕ
conn_rate none = 1000
conn_rate (some config) = config.conn_publish_rate

unfoldable pub conn_burst : Option BrokerConfig → ℕ
conn_burst none = 100
conn_burst (some config) = config.rate_limit_burst

module _ {ℓ} {W : Type ℓ} (d : Double W) where
  -- `publish_limiter_`, made at the time `made` if there is none.
  unfoldable pub limiter_or_new : Option BrokerConfig → ℕ → Option (TokenBucket W) → TokenBucket W
  limiter_or_new config made none = make_bucket d (conn_rate config) (conn_burst config) made
  limiter_or_new config made (some b) = b

  -- `AcquirePublishPermit`
  unfoldable pub acquire_publish_permit :
      ℕ → ℕ → ℕ → Option BrokerConfig → Option (TokenBucket W) → Bool × Option (TokenBucket W)
  acquire_publish_permit tokens made now config limiter =
      if is_unlimited config
      then (true, limiter)
      else let (ok, b) = acquire d tokens now (limiter_or_new config made limiter) in (ok, some b)

  -- `SetPublishRateLimit`
  unfoldable pub set_publish_rate_limit :
      ℕ → ℕ → ℕ → Option (TokenBucket W) → Option (TokenBucket W)
  set_publish_rate_limit rate burst now none = some (make_bucket d rate burst now)
  set_publish_rate_limit rate burst now (some b) = some (set_rate d rate burst now b)
