-- ===== src/Broker/Publish.antt =====
-- `HandlePublish`, `ShouldCompress` and `PublishLocal` of src/mq/broker.cpp.
use proto_msg_queue.Prelude.{
  ℕ, suc, Bool, true, false, not, ◌&&◌, none, some, List, [], ◌∷◌, ◌++◌, length, is_empty, ltb,
  if◌then◌else◌,
}
use proto_msg_queue.Map.{Text, codes}
use proto_msg_queue.Protocol.Frame.{Frame}
use proto_msg_queue.Common.Compression.{Zlib, compress}
use proto_msg_queue.Common.DedupWindow.{is_duplicate, mark_processed}
use proto_msg_queue.Common.ErrorCode.{ErrorCode}
use proto_msg_queue.Common.RateLimiter.{Double}
use proto_msg_queue.Storage.Store.{publish}
use proto_msg_queue.Topics.TopicManager.{get_topic_config}
use proto_msg_queue.Broker.{Broker, Peer, to_conn, Outcome, Readings}
use proto_msg_queue.Broker.Messages.{Wire, PublishRequest, PushMessage}
use proto_msg_queue.Broker.Permits.{
  Permit, granted, conn_limited, globally_limited, acquire_permits,
}
use proto_msg_queue.Broker.Replies.{response, code_response, push_frame, answer}
use proto_msg_queue.Broker.Targets.{push_topic}

-- `PublishLocal`
unfoldable pub publish_local : {W : Type 0} → Text → List ℕ → ℕ → ℕ → Broker W → Bool × Broker W
publish_local topic payload now timestamp b =
    let (ok, msg_id, store) = publish topic payload 0 now timestamp b.store in
    (ok, record b { store = store })

-- `ShouldCompress`
unfoldable pub should_compress : {W : Type 0} → Text → ℕ → Broker W → Bool
should_compress topic payload_size b =
    let config = b.config_manager.global_config in
    if not config.compression_enabled
    then false
    else if ltb payload_size config.compression_threshold_bytes
    then false
    else if (get_topic_config topic b.topic_manager).compression_enabled
    then true
    else config.compression_enabled

-- The payload that is stored, and whether it is compressed.
unfoldable pub compress_payload : {W : Type 0} → Zlib → PublishRequest → Broker W → List ℕ × Bool
compress_payload zlib req b =
    let small = compress zlib req.payload in
    if should_compress req.topic (length req.payload) b && not req.compressed
    then (if not (is_empty small) && ltb (length small) (length req.payload)
        then (small, true)
        else (req.payload, req.compressed))
    else (req.payload, req.compressed)

-- `dedup_enabled && !req.producer_id().empty()`
unfoldable pub is_tracked : {W : Type 0} → PublishRequest → Broker W → Bool
is_tracked req b = b.config_manager.global_config.dedup_enabled && not (is_empty req.producer_id)

-- `ttl_ms`
unfoldable pub ttl_of : {W : Type 0} → PublishRequest → Broker W → ℕ
ttl_of req b = if b.config_manager.global_config.ttl_enabled then req.ttl_ms else 0

-- The `PushMessage` of what was published
unfoldable pub published_push : ℕ → Text → List ℕ → Bool → ℕ → PushMessage
published_push msg_id topic payload compressed stamp = record {
  message_id = msg_id;
  topic = topic;
  payload = payload;
  timestamp = stamp;
  retry_count = 0;
  compressed = compressed;
}

module _ {W : Type 0} (wire : Wire) (zlib : Zlib) (d : Double W) where
  -- The part behind a successful `Publish`: the pushes, the mark in the window, the answer.
  unfoldable pub announce :
      Readings → PublishRequest → ℕ → List ℕ → Bool → Peer W → Broker W → Outcome W
  announce r req msg_id payload compressed conn b =
      let frame = λ (i : ℕ).
        push_frame wire (published_push msg_id req.topic payload compressed (r.push_stamp i)) in
      let (pushes, t) = push_topic (frame 0) (λ i. frame (suc i)) req.topic b.topic_manager in
      record {
        sends = pushes ++ to_conn (response wire true [] msg_id) ∷ [];
        peer = conn;
        broker = record b {
          topic_manager = t;
          dedup_window =
              if is_tracked req b
              then mark_processed r.marked req.producer_id req.sequence_id b.dedup_window
              else b.dedup_window;
        };
      }

  -- The part behind the rate limits
  unfoldable pub store_and_announce : Readings → PublishRequest → Peer W → Broker W → Outcome W
  store_and_announce r req conn b =
      let (payload, compressed) = compress_payload zlib req b in
      let (ok, msg_id, store) =
        publish req.topic payload (ttl_of req b) (r.publish_now 0) (r.publish_stamp 0) b.store in
      let b' = record b { store = store } in
      if ok
      then announce r req msg_id payload compressed conn b'
      else answer (code_response wire ErrorCode.buffer_full (codes "Backpressure: buffer full") 0)
          conn b'

  unfoldable pub if_permitted : Readings → PublishRequest → Permit × Peer W × Broker W → Outcome W
  if_permitted r req (granted, conn, b) = store_and_announce r req conn b
  if_permitted r req (conn_limited, conn, b) =
      answer (code_response wire ErrorCode.rate_limit_exceeded (codes "Rate limit exceeded") 0) conn
        b
  if_permitted r req (globally_limited, conn, b) =
      answer
        (code_response wire ErrorCode.rate_limit_exceeded (codes "Global rate limit exceeded") 0)
        conn b

  -- `HandlePublish` on a request that was parsed
  unfoldable pub publish_request : Readings → PublishRequest → Peer W → Broker W → Outcome W
  publish_request r req conn b =
      if is_tracked req b && is_duplicate req.producer_id req.sequence_id b.dedup_window
      then answer (response wire true [] req.sequence_id) conn b
      else if_permitted r req (acquire_permits d 1 r conn b)

  -- `HandlePublish`
  unfoldable pub handle_publish : Readings → Frame → Peer W → Broker W → Outcome W
  handle_publish r f conn b = elim (wire.parse_publish f.payload) [
    | none ↦
        answer
          (code_response wire ErrorCode.invalid_request (codes "Failed to parse publish request") 0)
          conn b
    | some req ↦ publish_request r req conn b
  ]
