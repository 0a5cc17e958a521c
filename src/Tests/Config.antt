-- ===== src/Tests/Config.antt =====
-- The default settings of src/common/config.h, written to a file and read back, and a file with a
-- comment, a negative number and a number out of range.
use proto_msg_queue.Prelude.{◌^◌, ◌≡◌, refl, true, false, ◌∷◌, ◌++◌, arith}
use proto_msg_queue.Map.{Text, codes}
use proto_msg_queue.Common.Config.{BrokerConfig, default_config}
use proto_msg_queue.Common.ConfigFile.{
  load_from_file, save_to_file, extract_value, drop_comments, get_val, get_flag, trim, before_char,
  tail_of, parse_uint, parse_bool,
}
use proto_msg_queue.Common.Decimal.{stoul, read_signed, read_digits}
use proto_msg_queue.Common.ConfigFile.Settings.{IsConfig}
use proto_msg_queue.Common.ConfigFile.RoundTrip.{load_from_file-save_to_file}

-- Another port, and no heartbeat
abbrev settings : BrokerConfig
settings = record default_config {
  port = 4711;
  heartbeat_enabled = false;
  max_retry_count = 4294967295;
}

settings-IsConfig : IsConfig settings
settings-IsConfig = record {
  port = omega arith;
  max_batch_size = omega arith;
  heartbeat_interval_ms = omega arith;
  heartbeat_timeout_ms = omega arith;
  heartbeat_check_interval_ms = omega arith;
  global_publish_rate = omega arith;
  conn_publish_rate = omega arith;
  rate_limit_burst = omega arith;
  max_write_buffer_size = omega arith;
  default_ttl_ms = omega arith;
  expiration_check_interval_ms = omega arith;
  compression_threshold_bytes = omega arith;
  dedup_window_size = omega arith;
  default_ring_buffer_size = omega arith;
  max_retry_count = omega arith;
  pending_timeout_ms = omega arith;
  retry_interval_ms = omega arith;
}

load_from_file-save_to_file_example :
    load_from_file (save_to_file true settings).1 default_config ≡ (true, settings)
load_from_file-save_to_file_example =
    load_from_file-save_to_file settings settings-IsConfig default_config

abbrev commented : Text
commented =
    codes "{ // the port: 1"
    ++ 10 ∷ codes "\"port\": 70000, // wraps"
    ++ 10 ∷ codes "\"max_batch_size\": -1, \"default_ttl_ms\": 18446744073709551616 }"

abbrev read : Text
read = drop_comments false false 0 commented

port_wraps : get_val (2 ^ 16) read (codes "port") 0 ≡ 4464
unfolding get_val drop_comments extract_value trim before_char tail_of parse_uint stoul read_signed
    read_digits
port_wraps = refl

negative_wraps : get_val (2 ^ 32) read (codes "max_batch_size") 0 ≡ 4294967295
unfolding get_val drop_comments extract_value trim before_char tail_of parse_uint stoul read_signed
    read_digits
negative_wraps = refl

too_large : get_val (2 ^ 32) read (codes "default_ttl_ms") 5 ≡ 5
unfolding get_val drop_comments extract_value trim before_char tail_of parse_uint stoul read_signed
    read_digits
too_large = refl

missing_flag : get_flag read (codes "ttl_enabled") true ≡ true
unfolding get_flag drop_comments extract_value parse_bool trim
missing_flag = refl
