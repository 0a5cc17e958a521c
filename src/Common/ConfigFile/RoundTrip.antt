-- ===== src/Common/ConfigFile/RoundTrip.antt =====
-- `LoadFromFile` of src/common/config.cpp reads what `SaveToFile` wrote.
use proto_msg_queue.Prelude.{ℕ, ◌^◌, ◌≡◌, ◌<◌, refl, ap, Bool, true, false, some, ◌∷◌}
use proto_msg_queue.Map.{Text, text_eq, codes, lookup}
use proto_msg_queue.Common.Config.{BrokerConfig}
use proto_msg_queue.Common.Decimal.{to_string}
use proto_msg_queue.Common.ConfigFile.{
  starts_with, find_text, extract_value, get_val, get_flag, load_json, load_from_file, flag_text,
  fields, lines, config_text, save_to_file,
}
use proto_msg_queue.Common.ConfigFile.Search.{Finds, lines-Finds, extract_value-Finds}
use proto_msg_queue.Common.ConfigFile.Written.{
  NoSlash, drop_comments-NoSlash, lines-NoSlash, to_string_some, parse_uint-to_string,
  parse_bool-flag_text, plain_text, plain_text-IsPlain,
}
use proto_msg_queue.Common.ConfigFile.Settings.{bits16, bits32, IsConfig, fields-IsLine}

-- The opening brace does not stop a search.
Finds-brace : (k v s : Text) → Finds k v s → Finds k v (123 ∷ 10 ∷ s)
unfolding find_text starts_with
Finds-brace k v s found = found

module _ (c : BrokerConfig) (h : IsConfig c) where
  extract_value-config_text :
      (k v : Text)
      → plain_text k ≡ true
      → lookup k (fields c) ≡ some v
      → extract_value (config_text c) k ≡ v
  unfolding config_text
  extract_value-config_text k v p at =
      let key = plain_text-IsPlain k p in
      extract_value-Finds k v (config_text c) key
        (Finds-brace k v (lines (fields c)) (lines-Finds (fields c) k v (fields-IsLine c h) key at))

  get_val-config_text :
      (modulus : ℕ) (k : Text) (n out : ℕ)
      → plain_text k ≡ true
      → lookup k (fields c) ≡ some (to_string n)
      → n < modulus
      → n < 2 ^ 64
      → get_val modulus (config_text c) k out ≡ n
  unfolding get_val
  get_val-config_text modulus k n out p at small range =
      rw (extract_value-config_text k (to_string n) p at, to_string_some n range)
        (parse_uint-to_string modulus n out small range)

  get_flag-config_text :
      (k : Text) (b out : Bool)
      → plain_text k ≡ true
      → lookup k (fields c) ≡ some (flag_text b)
      → get_flag (config_text c) k out ≡ b
  unfolding get_flag
  get_flag-config_text k b out p at =
      rw (extract_value-config_text k (flag_text b) p at) (parse_bool-flag_text b out)

  config_text-NoSlash : NoSlash (config_text c)
  unfolding config_text
  config_text-NoSlash = (refl, (refl, lines-NoSlash (fields c) (fields-IsLine c h)))

  load_json-config_text : (old : BrokerConfig) → load_json (config_text c) old ≡ c
  unfolding load_json lookup fields plain_text
  load_json-config_text old = λ i. record {
    port =
        get_val-config_text (2 ^ 16) (codes "port") c.port old.port refl refl h.port
          (bits16 c.port h.port) i;
    batch_publish_enabled =
        get_flag-config_text (codes "batch_publish_enabled") c.batch_publish_enabled
          old.batch_publish_enabled refl refl i;
    batch_push_enabled =
        get_flag-config_text (codes "batch_push_enabled") c.batch_push_enabled
          old.batch_push_enabled refl refl i;
    max_batch_size =
        get_val-config_text (2 ^ 32) (codes "max_batch_size") c.max_batch_size old.max_batch_size
          refl refl h.max_batch_size (bits32 c.max_batch_size h.max_batch_size) i;
    heartbeat_enabled =
        get_flag-config_text (codes "heartbeat_enabled") c.heartbeat_enabled old.heartbeat_enabled
          refl refl i;
    heartbeat_interval_ms =
        get_val-config_text (2 ^ 32) (codes "heartbeat_interval_ms") c.heartbeat_interval_ms
          old.heartbeat_interval_ms refl refl h.heartbeat_interval_ms
          (bits32 c.heartbeat_interval_ms h.heartbeat_interval_ms) i;
    heartbeat_timeout_ms =
        get_val-config_text (2 ^ 32) (codes "heartbeat_timeout_ms") c.heartbeat_timeout_ms
          old.heartbeat_timeout_ms refl refl h.heartbeat_timeout_ms
          (bits32 c.heartbeat_timeout_ms h.heartbeat_timeout_ms) i;
    heartbeat_check_interval_ms =
        get_val-config_text (2 ^ 32) (codes "heartbeat_check_interval_ms")
          c.heartbeat_check_interval_ms old.heartbeat_check_interval_ms refl refl
          h.heartbeat_check_interval_ms
          (bits32 c.heartbeat_check_interval_ms h.heartbeat_check_interval_ms) i;
    rate_limit_enabled =
        get_flag-config_text (codes "rate_limit_enabled") c.rate_limit_enabled
          old.rate_limit_enabled refl refl i;
    global_publish_rate =
        get_val-config_text (2 ^ 32) (codes "global_publish_rate") c.global_publish_rate
          old.global_publish_rate refl refl h.global_publish_rate
          (bits32 c.global_publish_rate h.global_publish_rate) i;
    conn_publish_rate =
        get_val-config_text (2 ^ 32) (codes "conn_publish_rate") c.conn_publish_rate
          old.conn_publish_rate refl refl h.conn_publish_rate
          (bits32 c.conn_publish_rate h.conn_publish_rate) i;
    rate_limit_burst =
        get_val-config_text (2 ^ 32) (codes "rate_limit_burst") c.rate_limit_burst
          old.rate_limit_burst refl refl h.rate_limit_burst
          (bits32 c.rate_limit_burst h.rate_limit_burst) i;
    max_write_buffer_size =
        get_val-config_text (2 ^ 64) (codes "max_write_buffer_size") c.max_write_buffer_size
          old.max_write_buffer_size refl refl h.max_write_buffer_size h.max_write_buffer_size i;
    ttl_enabled =
        get_flag-config_text (codes "ttl_enabled") c.ttl_enabled old.ttl_enabled refl refl i;
    default_ttl_ms =
        get_val-config_text (2 ^ 32) (codes "default_ttl_ms") c.default_ttl_ms old.default_ttl_ms
          refl refl h.default_ttl_ms (bits32 c.default_ttl_ms h.default_ttl_ms) i;
    expiration_check_interval_ms =
        get_val-config_text (2 ^ 32) (codes "expiration_check_interval_ms")
          c.expiration_check_interval_ms old.expiration_check_interval_ms refl refl
          h.expiration_check_interval_ms
          (bits32 c.expiration_check_interval_ms h.expiration_check_interval_ms) i;
    compression_enabled =
        get_flag-config_text (codes "compression_enabled") c.compression_enabled
          old.compression_enabled refl refl i;
    compression_threshold_bytes =
        get_val-config_text (2 ^ 32) (codes "compression_threshold_bytes")
          c.compression_threshold_bytes old.compression_threshold_bytes refl refl
          h.compression_threshold_bytes
          (bits32 c.compression_threshold_bytes h.compression_threshold_bytes) i;
    zero_copy_enabled =
        get_flag-config_text (codes "zero_copy_enabled") c.zero_copy_enabled old.zero_copy_enabled
          refl refl i;
    dedup_enabled =
        get_flag-config_text (codes "dedup_enabled") c.dedup_enabled old.dedup_enabled refl refl i;
    dedup_window_size =
        get_val-config_text (2 ^ 64) (codes "dedup_window_size") c.dedup_window_size
          old.dedup_window_size refl refl h.dedup_window_size h.dedup_window_size i;
    default_ring_buffer_size =
        get_val-config_text (2 ^ 64) (codes "default_ring_buffer_size") c.default_ring_buffer_size
          old.default_ring_buffer_size refl refl h.default_ring_buffer_size
          h.default_ring_buffer_size i;
    max_retry_count =
        get_val-config_text (2 ^ 32) (codes "max_retry_count") c.max_retry_count old.max_retry_count
          refl refl h.max_retry_count (bits32 c.max_retry_count h.max_retry_count) i;
    pending_timeout_ms =
        get_val-config_text (2 ^ 32) (codes "pending_timeout_ms") c.pending_timeout_ms
          old.pending_timeout_ms refl refl h.pending_timeout_ms
          (bits32 c.pending_timeout_ms h.pending_timeout_ms) i;
    retry_interval_ms =
        get_val-config_text (2 ^ 32) (codes "retry_interval_ms") c.retry_interval_ms
          old.retry_interval_ms refl refl h.retry_interval_ms
          (bits32 c.retry_interval_ms h.retry_interval_ms) i;
  }

  -- The settings that `SaveToFile` wrote come back from `LoadFromFile`, all of them, whatever settings
  -- the reader had before: for settings in the range of their types.
  pub load_from_file-save_to_file :
      (old : BrokerConfig) → load_from_file (save_to_file true c).1 old ≡ (true, c)
  unfolding load_from_file save_to_file
  load_from_file-save_to_file old =
      rw (drop_comments-NoSlash false 0 (config_text c) config_text-NoSlash)
        (ap (λ b. (true, b)) (load_json-config_text old))
