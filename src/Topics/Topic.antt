-- ===== src/Topics/Topic.antt =====
-- The topics, subscribers and groups of src/mq/topic.h and src/mq/topic_manager.h, and a topic's own
-- settings, of src/common/config.h. The callback in `SubscriberInfo`, which the manager only carries,
-- is left out.
use proto_msg_queue.Prelude.{ℕ, Bool, List}
use proto_msg_queue.Map.{Text}

-- `struct SubscriberInfo`
pub record SubscriberInfo : Type 0 where
  pub id : Text
  pub conn_id : ℕ

-- `struct TopicInfo`
pub record TopicInfo : Type 0 where
  pub name : Text
  pub create_time : ℕ
  pub message_count : ℕ

-- `struct TopicConfig`
pub record TopicConfig : Type 0 where
  pub ring_buffer_size : ℕ
  pub default_ttl_ms : ℕ
  pub compression_enabled : Bool

-- `struct ConsumerGroupMember`
pub record ConsumerGroupMember : Type 0 where
  pub subscriber_id : Text
  pub conn_id : ℕ

-- `struct ConsumerGroup`
pub record ConsumerGroup : Type 0 where
  pub group_id : Text
  pub topic_name : Text
  pub members : List ConsumerGroupMember
  pub round_robin_index : ℕ

-- The groups of a topic by their names
abbrev pub Groups : Type 0
Groups = List (Text × ConsumerGroup)
