-- ===== src/Common/ConfigFile.antt =====
-- The file of settings of src/common/config.cpp: `SaveToFile`, `LoadFromFile` and the parser that it
-- uses. The file is its text.
pub mod Search
pub mod Written
pub mod Settings
pub mod RoundTrip
use proto_msg_queue.Prelude.{
  ℕ, zero, suc, ◌+◌, ◌%◌, ◌^◌, Bool, true, false, not, ◌&&◌, ◌||◌, Option, none, some, List, [],
  ◌∷◌, ◌++◌, is_empty, ◌==◌, if◌then◌else◌,
}
use proto_msg_queue.Map.{Text, text_beq, codes}
use proto_msg_queue.Common.Config.{BrokerConfig}
use proto_msg_queue.Common.Decimal.{to_string, stoul}

-- The characters that `Trim` drops
unfoldable pub is_blank : ℕ → Bool
is_blank c = c == 32 || c == 9 || c == 13 || c == 10

unfoldable pub trim_front : Text → Text
unfolding is_blank
trim_front [] = []
trim_front (c ∷ cs) = let rest = trim_front cs in if is_blank c then rest else c ∷ cs

unfoldable pub trim_back : Text → Text
unfolding is_blank
trim_back [] = []
trim_back (c ∷ cs) = let rest = trim_back cs in if is_empty rest && is_blank c then [] else c ∷ rest

-- `Trim`
unfoldable pub trim : Text → Text
unfolding trim_front trim_back
trim s = trim_back (trim_front s)

-- `ParseBool`, with the value that `out` has before.
unfoldable pub parse_bool : Text → Bool → Bool
parse_bool value out =
    let v = trim value in
    if text_beq v (codes "true") || text_beq v (codes "1")
    then true
    else if text_beq v (codes "false") || text_beq v (codes "0")
    then false
    else out

unfoldable pub narrowed : ℕ → Option ℕ → ℕ → ℕ
narrowed modulus none out = out
narrowed modulus (some n) out = n % modulus

-- `ParseUint16`, `ParseUint32` and `ParseSizeT`, by the modulus of the type, with the value before.
unfoldable pub parse_uint : ℕ → Text → ℕ → ℕ
unfolding narrowed
parse_uint modulus value out = narrowed modulus (stoul (trim value)) out

unfoldable pub starts_with : Text → Text → Bool
starts_with [] s = true
starts_with (p ∷ ps) [] = false
starts_with (p ∷ ps) (c ∷ cs) = p == c && starts_with ps cs

-- `find` of a text, and of a character: the rest from the first place on.
unfoldable pub find_text : Text → Text → Option Text
unfolding starts_with
find_text p [] = if is_empty p then some [] else none
find_text p (c ∷ cs) =
    let rest = find_text p cs in if starts_with p (c ∷ cs) then some (c ∷ cs) else rest

unfoldable pub find_char : ℕ → Text → Option Text
find_char p [] = none
find_char p (c ∷ cs) = let rest = find_char p cs in if p == c then some (c ∷ cs) else rest

-- What stands before the first such character, if there is one.
unfoldable pub before_char : ℕ → Text → Option Text
before_char p [] = none
before_char p (c ∷ cs) =
    let rest = before_char p cs in
    if p == c then some [] else elim rest [ none ↦ none | some s ↦ some (c ∷ s) ]

-- The value up to the comma, else to the brace, else to the end
unfoldable pub value_of : Text → Text
value_of s = elim (before_char 44 s) [
  | some v ↦ v
  | none ↦ elim (before_char 125 s) [ some v ↦ v | none ↦ s ]
]

unfoldable pub tail_of : Text → Text
tail_of [] = []
tail_of (c ∷ cs) = cs

-- `ExtractValue`
unfoldable pub extract_value : Text → Text → Text
unfolding find_text find_char value_of
extract_value line key = elim (find_text (34 ∷ key ++ 34 ∷ []) line) [
  | none ↦ []
  | some from_key ↦ elim (find_char 58 from_key) [
    | none ↦ []
    | some from_colon ↦ trim (value_of (tail_of from_colon))
  ]
]

unfoldable pub is_slash : Text → Bool
is_slash [] = false
is_slash (c ∷ cs) = c == 47

-- The loop that drops comments: whether it is in a string, whether in a comment, and the character
-- before. A comment goes with the end of its line.
unfoldable pub drop_comments : Bool → Bool → ℕ → Text → Text
unfolding is_slash
drop_comments in_string in_comment previous [] = []
drop_comments in_string true previous (c ∷ cs) = drop_comments in_string (not (c == 10)) c cs
drop_comments in_string false previous (c ∷ cs) =
    let quoted = if c == 34 && not (previous == 92) then not in_string else in_string in
    let skipped = drop_comments quoted true c cs in
    let kept = drop_comments quoted false c cs in
    if not quoted && c == 47 && is_slash cs then skipped else c ∷ kept

-- `GetVal` with one of the number parsers: an empty value leaves the field.
unfoldable pub get_val : ℕ → Text → Text → ℕ → ℕ
get_val modulus json key field =
    let value = extract_value json key in
    if is_empty value then field else parse_uint modulus value field

unfoldable pub get_flag : Text → Text → Bool → Bool
get_flag json key field = parse_bool (extract_value json key) field

-- `LoadFromFile` on the text behind the comments
unfoldable pub load_json : Text → BrokerConfig → BrokerConfig
load_json json c = record {
  port = get_val (2 ^ 16) json (codes "port") c.port;
  batch_publish_enabled = get_flag json (codes "batch_publish_enabled") c.batch_publish_enabled;
  batch_push_enabled = get_flag json (codes "batch_push_enabled") c.batch_push_enabled;
  max_batch_size = get_val (2 ^ 32) json (codes "max_batch_size") c.max_batch_size;
  heartbeat_enabled = get_flag json (codes "heartbeat_enabled") c.heartbeat_enabled;
  heartbeat_interval_ms =
      get_val (2 ^ 32) json (codes "heartbeat_interval_ms") c.heartbeat_interval_ms;
  heartbeat_timeout_ms =
      get_val (2 ^ 32) json (codes "heartbeat_timeout_ms") c.heartbeat_timeout_ms;
  heartbeat_check_interval_ms =
      get_val (2 ^ 32) json (codes "heartbeat_check_interval_ms") c.heartbeat_check_interval_ms;
  rate_limit_enabled = get_flag json (codes "rate_limit_enabled") c.rate_limit_enabled;
  global_publish_rate = get_val (2 ^ 32) json (codes "global_publish_rate") c.global_publish_rate;
  conn_publish_rate = get_val (2 ^ 32) json (codes "conn_publish_rate") c.conn_publish_rate;
  rate_limit_burst = get_val (2 ^ 32) json (codes "rate_limit_burst") c.rate_limit_burst;
  max_write_buffer_size =
      get_val (2 ^ 64) json (codes "max_write_buffer_size") c.max_write_buffer_size;
  ttl_enabled = get_flag json (codes "ttl_enabled") c.ttl_enabled;
  default_ttl_ms = get_val (2 ^ 32) json (codes "default_ttl_ms") c.default_ttl_ms;
  expiration_check_interval_ms =
      get_val (2 ^ 32) json (codes "expiration_check_interval_ms") c.expiration_check_interval_ms;
  compression_enabled = get_flag json (codes "compression_enabled") c.compression_enabled;
  compression_threshold_bytes =
      get_val (2 ^ 32) json (codes "compression_threshold_bytes") c.compression_threshold_bytes;
  zero_copy_enabled = get_flag json (codes "zero_copy_enabled") c.zero_copy_enabled;
  dedup_enabled = get_flag json (codes "dedup_enabled") c.dedup_enabled;
  dedup_window_size = get_val (2 ^ 64) json (codes "dedup_window_size") c.dedup_window_size;
  default_ring_buffer_size =
      get_val (2 ^ 64) json (codes "default_ring_buffer_size") c.default_ring_buffer_size;
  max_retry_count = get_val (2 ^ 32) json (codes "max_retry_count") c.max_retry_count;
  pending_timeout_ms = get_val (2 ^ 32) json (codes "pending_timeout_ms") c.pending_timeout_ms;
  retry_interval_ms = get_val (2 ^ 32) json (codes "retry_interval_ms") c.retry_interval_ms;
}

-- `LoadFromFile`; `none` is a file that cannot be opened.
unfoldable pub load_from_file : Option Text → BrokerConfig → Bool × BrokerConfig
load_from_file none c = (false, c)
load_from_file (some content) c = (true, load_json (drop_comments false false 0 content) c)

unfoldable pub flag_text : Bool → Text
flag_text b = if b then codes "true" else codes "false"

-- The names and values that `SaveToFile` writes, in turn
unfoldable pub fields : BrokerConfig → List (Text × Text)
fields c =
    (codes "port", to_string c.port)
    ∷ (codes "batch_publish_enabled", flag_text c.batch_publish_enabled)
    ∷ (codes "batch_push_enabled", flag_text c.batch_push_enabled)
    ∷ (codes "max_batch_size", to_string c.max_batch_size)
    ∷ (codes "heartbeat_enabled", flag_text c.heartbeat_enabled)
    ∷ (codes "heartbeat_interval_ms", to_string c.heartbeat_interval_ms)
    ∷ (codes "heartbeat_timeout_ms", to_string c.heartbeat_timeout_ms)
    ∷ (codes "heartbeat_check_interval_ms", to_string c.heartbeat_check_interval_ms)
    ∷ (codes "rate_limit_enabled", flag_text c.rate_limit_enabled)
    ∷ (codes "global_publish_rate", to_string c.global_publish_rate)
    ∷ (codes "conn_publish_rate", to_string c.conn_publish_rate)
    ∷ (codes "rate_limit_burst", to_string c.rate_limit_burst)
    ∷ (codes "max_write_buffer_size", to_string c.max_write_buffer_size)
    ∷ (codes "ttl_enabled", flag_text c.ttl_enabled)
    ∷ (codes "default_ttl_ms", to_string c.default_ttl_ms)
    ∷ (codes "expiration_check_interval_ms", to_string c.expiration_check_interval_ms)
    ∷ (codes "compression_enabled", flag_text c.compression_enabled)
    ∷ (codes "compression_threshold_bytes", to_string c.compression_threshold_bytes)
    ∷ (codes "zero_copy_enabled", flag_text c.zero_copy_enabled)
    ∷ (codes "dedup_enabled", flag_text c.dedup_enabled)
    ∷ (codes "dedup_window_size", to_string c.dedup_window_size)
    ∷ (codes "default_ring_buffer_size", to_string c.default_ring_buffer_size)
    ∷ (codes "max_retry_count", to_string c.max_retry_count)
    ∷ (codes "pending_timeout_ms", to_string c.pending_timeout_ms)
    ∷ (codes "retry_interval_ms", to_string c.retry_interval_ms)
    ∷ []

-- One line, before the rest: two blanks, the name in quotes, a colon, a blank, the value.
unfoldable pub entry : Text → Text → Text → Text
entry k v rest = 32 ∷ 32 ∷ 34 ∷ (k ++ (34 ∷ 58 ∷ 32 ∷ (v ++ rest)))

-- The lines, each but the last with a comma, and the closing brace
unfoldable pub lines : List (Text × Text) → Text
unfolding entry
lines [] = 125 ∷ 10 ∷ []
lines ((k, v) ∷ []) = entry k v (10 ∷ 125 ∷ 10 ∷ [])
lines ((k, v) ∷ f ∷ fs) = entry k v (44 ∷ 10 ∷ lines (f ∷ fs))

unfoldable pub config_text : BrokerConfig → Text
config_text c = 123 ∷ 10 ∷ lines (fields c)

-- `SaveToFile`, by whether the file can be opened: the answer and what is written.
unfoldable pub save_to_file : Bool → BrokerConfig → Bool × Option Text
save_to_file opened c = if opened then (true, some (config_text c)) else (false, none)
