-- ===== src/Broker/BatchPublish.antt =====
-- `HandleBatchPublish` of src/mq/broker.cpp. It does not look at the deduplication window.
use proto_msg_queue.Prelude.{
  ℕ, suc, Bool, true, false, ◌&&◌, none, some, List, [], ◌∷◌, ◌++◌, map, length, get_or, is_empty,
  ltb, if◌then◌else◌,
}
use proto_msg_queue.Map.{Text, codes, text_eq, lookup, insert}
use proto_msg_queue.Protocol.Frame.{Frame}
use proto_msg_queue.Common.Compression.{Zlib}
use proto_msg_queue.Common.ErrorCode.{ErrorCode}
use proto_msg_queue.Common.RateLimiter.{Double}
use proto_msg_queue.Storage.Message.{StoredMessage}
use proto_msg_queue.Storage.Store.{publish}
use proto_msg_queue.Topics.TopicManager.{TopicManager, list_of}
use proto_msg_queue.Broker.{Broker, Peer, Send, to_conn, Outcome, Readings}
use proto_msg_queue.Broker.Messages.{Wire, PublishRequest}
use proto_msg_queue.Broker.Permits.{
  Permit, granted, conn_limited, globally_limited, acquire_permits,
}
use proto_msg_queue.Broker.Publish.{compress_payload, ttl_of}
use proto_msg_queue.Broker.Replies.{
  response, code_response, push_frame, batch_push_frame, push_of, answer,
}
use proto_msg_queue.Broker.Targets.{push_topic}

-- The id of the last message; zero for none.
unfoldable pub last_id : List StoredMessage → ℕ
last_id [] = 0
last_id (m ∷ []) = m.id
last_id (m ∷ m' ∷ ms) = last_id (m' ∷ ms)

-- The copy of a message that is kept for the pushes
unfoldable pub stored_of : ℕ → Text → List ℕ → ℕ → StoredMessage
stored_of msg_id topic payload stamp = record {
  id = msg_id;
  topic_name = topic;
  payload = payload;
  timestamp = stamp;
  retry_count = 0;
  expires_at = 0;
}

-- The loop that publishes: the messages that the store took, and the broker after. `any_success` is
-- whether there is one, `last_msg_id` the number of the last.
unfoldable pub publish_all :
    {W : Type 0}
    → Zlib
    → Readings
    → ℕ
    → List PublishRequest
    → Broker W
    → List StoredMessage × Broker W
publish_all zlib r i [] b = ([], b)
publish_all zlib r i (req ∷ reqs) b =
    let (payload, compressed) = compress_payload zlib req b in
    let (ok, msg_id, store) =
      publish req.topic payload (ttl_of req b) (r.publish_now i) (r.publish_stamp i) b.store in
    let (stored, b') = publish_all zlib r (suc i) reqs (record b { store = store }) in
    (if ok then stored_of msg_id req.topic payload (r.push_stamp i) ∷ stored else stored, b')

-- `topic_messages[msg.topic_name].push_back(msg)` for each message
unfoldable pub by_topic :
    List StoredMessage → List (Text × List StoredMessage) → List (Text × List StoredMessage)
by_topic [] topics = topics
by_topic (m ∷ ms) topics =
    by_topic ms (insert m.topic_name (list_of (lookup m.topic_name topics) ++ m ∷ []) topics)

-- The frame that is pushed for the messages of a topic: all of them, or the first. The list is never
-- empty, so the default for `messages[0]` is not used. What `SendPushMessage` and
-- `SendBatchPushMessage` do with the null connection that is passed here is nothing.
unfoldable pub topic_frame : Wire → Bool → Text → List StoredMessage → Frame
topic_frame wire batch_push topic messages =
    if batch_push && ltb 1 (length messages)
    then batch_push_frame wire (map (push_of topic false) messages)
    else push_frame wire (push_of topic false (get_or messages 0 (stored_of 0 topic [] 0)))

-- The loop over the topics
unfoldable pub push_topics :
    Wire → Bool → List (Text × List StoredMessage) → TopicManager → List Send × TopicManager
push_topics wire batch_push [] t = ([], t)
push_topics wire batch_push ((topic, messages) ∷ rest) t =
    let frame = topic_frame wire batch_push topic messages in
    let (sends, t') = push_topic frame (λ _. frame) topic t in
    let (more, t'') = push_topics wire batch_push rest t' in (sends ++ more, t'')

module _ {W : Type 0} (wire : Wire) (zlib : Zlib) (d : Double W) where
  -- The part behind the limits
  unfoldable pub store_batch : Readings → List PublishRequest → Peer W → Broker W → Outcome W
  store_batch r reqs conn b =
      let (stored, b') = publish_all zlib r 0 reqs b in
      let (pushes, t) =
        push_topics wire b.config_manager.global_config.batch_push_enabled (by_topic stored [])
          b'.topic_manager in
      if is_empty stored
      then answer (code_response wire ErrorCode.buffer_full (codes "Backpressure: buffer full") 0)
          conn b'
      else (record {
        sends = pushes ++ to_conn (response wire true [] (last_id stored)) ∷ [];
        peer = conn;
        broker = record b' { topic_manager = t };
      })

  unfoldable pub batch_if_permitted :
      Readings → List PublishRequest → Permit × Peer W × Broker W → Outcome W
  batch_if_permitted r reqs (granted, conn, b) =
      if ltb b.config_manager.global_config.max_batch_size (length reqs)
      then answer
          (code_response wire ErrorCode.batch_size_exceeded (codes "Batch size exceeds limit") 0)
          conn b
      else store_batch r reqs conn b
  batch_if_permitted r reqs (conn_limited, conn, b) =
      answer (code_response wire ErrorCode.rate_limit_exceeded (codes "Rate limit exceeded") 0) conn
        b
  batch_if_permitted r reqs (globally_limited, conn, b) =
      answer
        (code_response wire ErrorCode.rate_limit_exceeded (codes "Global rate limit exceeded") 0)
        conn b

  -- `HandleBatchPublish`
  unfoldable pub handle_batch_publish : Readings → Frame → Peer W → Broker W → Outcome W
  handle_batch_publish r f conn b = elim (wire.parse_batch_publish f.payload) [
    | none ↦
        answer
          (code_response wire ErrorCode.invalid_request
            (codes "Failed to parse batch publish request") 0)
          conn b
    | some reqs ↦
        if is_empty reqs
        then answer
            (code_response wire ErrorCode.invalid_request (codes "Empty batch publish request") 0)
            conn b
        else batch_if_permitted r reqs (acquire_permits d (length reqs) r conn b)
  ]
