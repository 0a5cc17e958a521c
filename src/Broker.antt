-- ===== src/Broker.antt =====
-- src/mq/broker.h and the messages of src/proto/msg_queue.proto: what the broker keeps, and what it
-- sends. A handler takes the connection that the frame came from and the broker, and gives both back
-- with the calls of `SendFrame` and `SendTo` that it makes, whose results the broker does not read.
pub mod Messages
pub mod Replies
pub mod Permits
pub mod Targets
pub mod Publish
pub mod BatchPublish
pub mod Consume
pub mod Admin
pub mod Dispatch
pub mod Answers
pub mod Dedup
pub mod Departed
pub mod Refusals
pub mod Deletion
use proto_msg_queue.Prelude.{ℕ, Option, List, [], ◌∷◌}
use proto_msg_queue.Protocol.Frame.{Frame}
use proto_msg_queue.Common.Config.{BrokerConfig, ConfigManager}
use proto_msg_queue.Common.DedupWindow.{DedupWindow}
use proto_msg_queue.Common.RateLimiter.{TokenBucket}
use proto_msg_queue.Storage.Store.{MemoryMessageStore}
use proto_msg_queue.Topics.TopicManager.{TopicManager}

-- `class Broker`; the server is outside, and is called by what a handler sends.
pub record Broker (W : Type 0) : Type 0 where
  pub store : MemoryMessageStore
  pub topic_manager : TopicManager
  pub config_manager : ConfigManager
  pub dedup_window : DedupWindow
  pub global_publish_limiter : Option (TokenBucket W)

-- What a handler uses of the `Connection` that a frame came from.
pub record Peer (W : Type 0) : Type 0 where
  pub id : ℕ
  pub config : Option BrokerConfig
  pub publish_limiter : Option (TokenBucket W)

-- `conn->SendFrame(frame)`, and `server_.SendTo(conn_id, frame)`.
pub data Send : Type 0 where
  to_conn : Frame → Send
  to_id : ℕ → Frame → Send

pub record Outcome (W : Type 0) : Type 0 where
  pub sends : List Send
  pub peer : Peer W
  pub broker : Broker W

-- The readings of the clocks while one frame is handled: those of the limiters, those of `Publish`
-- and of the time stamps for each message or push, those of `Pull`, and that of `MarkProcessed`.
pub record Readings : Type 0 where
  pub limiter_made : ℕ
  pub limiter_now : ℕ
  pub global_now : ℕ
  pub publish_now : ℕ → ℕ
  pub publish_stamp : ℕ → ℕ
  pub push_stamp : ℕ → ℕ
  pub pull_now : ℕ
  pub pull_clock : ℕ → ℕ
  pub marked : ℕ
