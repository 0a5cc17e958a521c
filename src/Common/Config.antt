-- ===== src/Common/Config.antt =====
-- src/common/config.h and the configuration manager of src/common/config.cpp.
use proto_msg_queue.Prelude.{ℕ, ◌*◌, Bool, true, false, List, [], is_some}
use proto_msg_queue.Map.{Text, text_eq, lookup, insert}
use proto_msg_queue.Topics.Topic.{TopicConfig}
use proto_msg_queue.Topics.TopicManager.{config_or_default}

-- `struct BrokerConfig`
pub record BrokerConfig : Type 0 where
  pub port : ℕ
  pub batch_publish_enabled : Bool
  pub batch_push_enabled : Bool
  pub max_batch_size : ℕ
  pub heartbeat_enabled : Bool
  pub heartbeat_interval_ms : ℕ
  pub heartbeat_timeout_ms : ℕ
  pub heartbeat_check_interval_ms : ℕ
  pub rate_limit_enabled : Bool
  pub global_publish_rate : ℕ
  pub conn_publish_rate : ℕ
  pub rate_limit_burst : ℕ
  pub max_write_buffer_size : ℕ
  pub ttl_enabled : Bool
  pub default_ttl_ms : ℕ
  pub expiration_check_interval_ms : ℕ
  pub compression_enabled : Bool
  pub compression_threshold_bytes : ℕ
  pub zero_copy_enabled : Bool
  pub dedup_enabled : Bool
  pub dedup_window_size : ℕ
  pub default_ring_buffer_size : ℕ
  pub max_retry_count : ℕ
  pub pending_timeout_ms : ℕ
  pub retry_interval_ms : ℕ

-- `BrokerConfig{}`
abbrev pub default_config : BrokerConfig
default_config = record {
  port = 9090;
  batch_publish_enabled = true;
  batch_push_enabled = true;
  max_batch_size = 100;
  heartbeat_enabled = true;
  heartbeat_interval_ms = 5000;
  heartbeat_timeout_ms = 15000;
  heartbeat_check_interval_ms = 5000;
  rate_limit_enabled = true;
  global_publish_rate = 10000;
  conn_publish_rate = 1000;
  rate_limit_burst = 100;
  max_write_buffer_size = 8 * 1024 * 1024;
  ttl_enabled = true;
  default_ttl_ms = 0;
  expiration_check_interval_ms = 10000;
  compression_enabled = false;
  compression_threshold_bytes = 1024;
  zero_copy_enabled = true;
  dedup_enabled = true;
  dedup_window_size = 100000;
  default_ring_buffer_size = 1024 * 1024;
  max_retry_count = 3;
  pending_timeout_ms = 5000;
  retry_interval_ms = 1000;
}

-- `class ConfigManager`; its two `GetGlobalConfig` are the field.
pub record ConfigManager : Type 0 where
  pub global_config : BrokerConfig
  pub topic_configs : List (Text × TopicConfig)

-- The constructor
unfoldable pub make_config_manager : BrokerConfig → ConfigManager
make_config_manager config = record { global_config = config; topic_configs = [] }

-- `SetTopicConfig`, `GetTopicConfig` and `HasTopicConfig` of the manager
unfoldable pub set_config_of : Text → TopicConfig → ConfigManager → ConfigManager
set_config_of topic config c = record c { topic_configs = insert topic config c.topic_configs }

unfoldable pub get_config_of : Text → ConfigManager → TopicConfig
unfolding config_or_default
get_config_of topic c = config_or_default (lookup topic c.topic_configs)

unfoldable pub has_config_of : Text → ConfigManager → Bool
has_config_of topic c = is_some (lookup topic c.topic_configs)
