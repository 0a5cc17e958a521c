-- ===== src/Storage/Message/RoundTrip.antt =====
-- A message is read back from the bytes that it was written to.
use proto_msg_queue.Prelude.{ℕ, ◌+◌, ◌^◌, ◌<◌, ◌≡◌, some, List, [], length, arith, take_all}
use proto_msg_queue.Bytes.{be_bytes}
use proto_msg_queue.Bytes.Words.{be_read-be_bytes}
use proto_msg_queue.Storage.Message.{serialize, parse_message, message_header_size}

pub length-serialize :
    (msg_id timestamp expires_at : ℕ) (payload : List ℕ)
    → length (serialize msg_id timestamp expires_at payload) ≡ message_header_size + length payload
unfolding serialize be_bytes
length-serialize msg_id timestamp expires_at payload = omega arith

-- The bytes that `Publish` writes for a message whose fields fit their types are read back by
-- `DrainRingBuffer` as this message, with no topic name and no retries.
pub parse_message-serialize :
    (msg_id timestamp expires_at : ℕ) (payload : List ℕ)
    → msg_id < 2 ^ 64
    → timestamp < 2 ^ 64
    → expires_at < 2 ^ 64
    → length payload < 2 ^ 32
    → parse_message (serialize msg_id timestamp expires_at payload)
      ≡ some (record {
        id = msg_id;
        topic_name = [];
        payload = payload;
        timestamp = timestamp;
        retry_count = 0;
        expires_at = expires_at;
      })
unfolding serialize parse_message be_bytes
parse_message-serialize msg_id timestamp expires_at payload i t x p = ground (
  arith,
  be_read-be_bytes 64 8 0 msg_id (omega arith),
  be_read-be_bytes 64 8 0 timestamp (omega arith),
  be_read-be_bytes 64 8 0 expires_at (omega arith),
  be_read-be_bytes 32 4 0 (length payload) (omega arith),
  take_all (length payload) payload,
)
