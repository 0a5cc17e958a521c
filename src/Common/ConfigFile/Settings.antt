-- ===== src/Common/ConfigFile/Settings.antt =====
-- `BrokerConfig` of src/common/config.h with its settings in the range of their types, and the lines
-- that `SaveToFile` writes of it.
use proto_msg_queue.Prelude.{ℕ, ◌^◌, ◌<◌, refl, All, arith}
use proto_msg_queue.Map.{codes}
use proto_msg_queue.Common.Config.{BrokerConfig}
use proto_msg_queue.Common.ConfigFile.{fields}
use proto_msg_queue.Common.ConfigFile.Search.{IsLine}
use proto_msg_queue.Common.ConfigFile.Written.{plain_text, flag-IsLine, number-IsLine}

-- The settings in the range of their types
pub record IsConfig (c : BrokerConfig) : Type 0 where
  pub port : c.port < 2 ^ 16
  pub max_batch_size : c.max_batch_size < 2 ^ 32
  pub heartbeat_interval_ms : c.heartbeat_interval_ms < 2 ^ 32
  pub heartbeat_timeout_ms : c.heartbeat_timeout_ms < 2 ^ 32
  pub heartbeat_check_interval_ms : c.heartbeat_check_interval_ms < 2 ^ 32
  pub global_publish_rate : c.global_publish_rate < 2 ^ 32
  pub conn_publish_rate : c.conn_publish_rate < 2 ^ 32
  pub rate_limit_burst : c.rate_limit_burst < 2 ^ 32
  pub max_write_buffer_size : c.max_write_buffer_size < 2 ^ 64
  pub default_ttl_ms : c.default_ttl_ms < 2 ^ 32
  pub expiration_check_interval_ms : c.expiration_check_interval_ms < 2 ^ 32
  pub compression_threshold_bytes : c.compression_threshold_bytes < 2 ^ 32
  pub dedup_window_size : c.dedup_window_size < 2 ^ 64
  pub default_ring_buffer_size : c.default_ring_buffer_size < 2 ^ 64
  pub max_retry_count : c.max_retry_count < 2 ^ 32
  pub pending_timeout_ms : c.pending_timeout_ms < 2 ^ 32
  pub retry_interval_ms : c.retry_interval_ms < 2 ^ 32

pub bits16 : (n : ℕ) → n < 2 ^ 16 → n < 2 ^ 64
bits16 n h = omega arith

pub bits32 : (n : ℕ) → n < 2 ^ 32 → n < 2 ^ 64
bits32 n h = omega arith

-- Every line that `SaveToFile` writes can be searched.
pub fields-IsLine : (c : BrokerConfig) → IsConfig c → All IsLine (fields c)
unfolding fields plain_text
fields-IsLine c h =
    ((
      number-IsLine (codes "port") c.port refl (bits16 c.port h.port),
      (
        flag-IsLine (codes "batch_publish_enabled") c.batch_publish_enabled refl,
        (
          flag-IsLine (codes "batch_push_enabled") c.batch_push_enabled refl,
          (
            number-IsLine (codes "max_batch_size") c.max_batch_size refl
                (bits32 c.max_batch_size h.max_batch_size),
            (
              flag-IsLine (codes "heartbeat_enabled") c.heartbeat_enabled refl,
              (
                number-IsLine (codes "heartbeat_interval_ms") c.heartbeat_interval_ms refl
                    (bits32 c.heartbeat_interval_ms h.heartbeat_interval_ms),
                (
                  number-IsLine (codes "heartbeat_timeout_ms") c.heartbeat_timeout_ms refl
                      (bits32 c.heartbeat_timeout_ms h.heartbeat_timeout_ms),
                  (
                    number-IsLine (codes "heartbeat_check_interval_ms")
                        c.heartbeat_check_interval_ms refl
                        (bits32 c.heartbeat_check_interval_ms h.heartbeat_check_interval_ms),
                    (
                      flag-IsLine (codes "rate_limit_enabled") c.rate_limit_enabled refl,
                      (
                        number-IsLine (codes "global_publish_rate") c.global_publish_rate refl
                            (bits32 c.global_publish_rate h.global_publish_rate),
                        (
                          number-IsLine (codes "conn_publish_rate") c.conn_publish_rate refl
                              (bits32 c.conn_publish_rate h.conn_publish_rate),
                          (
                            number-IsLine (codes "rate_limit_burst") c.rate_limit_burst refl
                                (bits32 c.rate_limit_burst h.rate_limit_burst),
                            (
                              number-IsLine (codes "max_write_buffer_size") c.max_write_buffer_size
                                  refl h.max_write_buffer_size,
                              (
                                flag-IsLine (codes "ttl_enabled") c.ttl_enabled refl,
                                (
                                  number-IsLine (codes "default_ttl_ms") c.default_ttl_ms refl
                                      (bits32 c.default_ttl_ms h.default_ttl_ms),
                                  (
                                    number-IsLine (codes "expiration_check_interval_ms")
                                        c.expiration_check_interval_ms refl
                                        (bits32 c.expiration_check_interval_ms
                                          h.expiration_check_interval_ms),
                                    (
                                      flag-IsLine (codes "compression_enabled")
                                          c.compression_enabled refl,
                                      (
                                        number-IsLine (codes "compression_threshold_bytes")
                                            c.compression_threshold_bytes refl
                                            (bits32 c.compression_threshold_bytes
                                              h.compression_threshold_bytes),
                                        (
                                          flag-IsLine (codes "zero_copy_enabled")
                                              c.zero_copy_enabled refl,
                                          (
                                            flag-IsLine (codes "dedup_enabled") c.dedup_enabled
                                                refl,
                                            (
                                              number-IsLine (codes "dedup_window_size")
                                                  c.dedup_window_size refl h.dedup_window_size,
                                              (
                                                number-IsLine (codes "default_ring_buffer_size")
                                                    c.default_ring_buffer_size refl
                                                    h.default_ring_buffer_size,
                                                (
                                                  number-IsLine (codes "max_retry_count")
                                                      c.max_retry_count refl
                                                      (bits32 c.max_retry_count h.max_retry_count),
                                                  (
                                                    number-IsLine (codes "pending_timeout_ms")
                                                        c.pending_timeout_ms refl
                                                        (bits32 c.pending_timeout_ms
                                                          h.pending_timeout_ms),
                                                    (
                                                      number-IsLine (codes "retry_interval_ms")
                                                          c.retry_interval_ms refl
                                                          (bits32 c.retry_interval_ms
                                                            h.retry_interval_ms),
                                                      tt,
                                                    ),
                                                  ),
                                                ),
                                              ),
                                            ),
                                          ),
                                        ),
                                      ),
                                    ),
                                  ),
                                ),
                              ),
                            ),
                          ),
                        ),
                      ),
                    ),
                  ),
                ),
              ),
            ),
          ),
        ),
      ),
    ))
