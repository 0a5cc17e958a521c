-- ===== src/Storage/Message.antt =====
-- A stored message and its bytes in the ring buffer: src/storage/message_store.h and the
-- serialisation in src/storage/memory_message_store.cpp.
pub mod RoundTrip
use proto_msg_queue.Prelude.{
  ℕ, ◌+◌, ◌-◌, ◌%◌, ◌^◌, Bool, true, false, ◌&&◌, Option, none, some, List, [], ◌∷◌, ◌++◌, length,
  take, drop, ltb, ◌==◌, if◌then◌else◌,
}
use proto_msg_queue.Bytes.{be_bytes, be_read}
use proto_msg_queue.Map.{Text}

-- `struct StoredMessage`
pub record StoredMessage : Type 0 where
  pub id : ℕ
  pub topic_name : Text
  pub payload : List ℕ
  pub timestamp : ℕ
  pub retry_count : ℕ
  pub expires_at : ℕ

-- The tests `expires_at > 0 && now_ms > expires_at` of the store, and `IsMessageExpired` at the time
-- that it reads.
unfoldable pub is_expired : ℕ → StoredMessage → Bool
is_expired now m = ltb 0 m.expires_at && ltb m.expires_at now

-- The expiry time that `Publish` computes: none for a TTL of zero.
unfoldable pub expiry : ℕ → ℕ → ℕ
expiry ttl_ms now = if ltb 0 ttl_ms then (now + ttl_ms) % 2 ^ 64 else 0

-- The bytes that `Publish` writes: id, timestamp, expiry, the payload's length, the payload.
unfoldable pub serialize : ℕ → ℕ → ℕ → List ℕ → List ℕ
serialize msg_id timestamp expires_at payload =
    be_bytes 8 msg_id
    ++ be_bytes 8 timestamp
    ++ be_bytes 8 expires_at
    ++ be_bytes 4 (length payload % 2 ^ 32)
    ++ payload

abbrev pub message_header_size : ℕ
message_header_size = 8 + 8 + 8 + 4

-- What `DrainRingBuffer` makes of the bytes of one message; `none` where it skips them.
unfoldable pub parse_message : List ℕ → Option StoredMessage
parse_message buf =
    if ltb (length buf) message_header_size
    then none
    else let payload_size = be_read 32 0 (take 4 (drop 24 buf)) in
      if ltb (length buf) (message_header_size + payload_size)
      then none
      else some (record {
        id = be_read 64 0 (take 8 buf);
        topic_name = [];
        payload = take payload_size (drop message_header_size buf);
        timestamp = be_read 64 0 (take 8 (drop 8 buf));
        retry_count = 0;
        expires_at = be_read 64 0 (take 8 (drop 16 buf));
      })
