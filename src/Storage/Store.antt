-- ===== src/Storage/Store.antt =====
-- src/storage/memory_message_store.cpp: `class MemoryMessageStore`, its table of topics and its dead
-- letter queues. A method returns its result and the new store.
use proto_msg_queue.Prelude.{
  is_some, ℕ, suc, Bool, true, false, none, some, List, [], ◌∷◌, ◌++◌, length, take, drop, min,
}
use proto_msg_queue.Map.{Text, text_eq, lookup, insert, erase}
use proto_msg_queue.Storage.Message.{StoredMessage}
use proto_msg_queue.Storage.Topic.{TopicData, make_topic, publish_to, pull_from, ack_in}
use proto_msg_queue.Storage.Sweep.{process_pending_retries, expire_topic_messages}

-- `class MemoryMessageStore`
pub record MemoryMessageStore : Type 0 where
  pub topics : List (Text × TopicData)
  pub dlq_storage : List (Text × List StoredMessage)
  pub default_buffer_size : ℕ
  pub max_retry_count : ℕ
  pub pending_timeout_ms : ℕ

-- `MakeDlqName`: "__dlq." before the name.
unfoldable pub make_dlq_name : Text → Text
make_dlq_name topic = 95 ∷ 95 ∷ 100 ∷ 108 ∷ 113 ∷ 46 ∷ topic

-- `HasTopic`
unfoldable pub has_topic : Text → MemoryMessageStore → Bool
has_topic topic s = is_some (lookup topic s.topics)

-- `CreateTopic`
unfoldable pub create_topic : Text → MemoryMessageStore → Bool × MemoryMessageStore
create_topic topic s = elim (lookup topic s.topics) [
  | some t ↦ (false, s)
  | none ↦
      (true, record s { topics = insert topic (make_topic s.default_buffer_size topic) s.topics })
]

-- `DeleteTopic`, with the dead letter queue of the topic.
unfoldable pub delete_topic : Text → MemoryMessageStore → Bool × MemoryMessageStore
delete_topic topic s = elim (lookup topic s.topics) [
  | none ↦ (false, s)
  | some t ↦ (
    true,
    record s {
      topics = erase topic s.topics;
      dlq_storage = erase (make_dlq_name topic) s.dlq_storage;
    },
  )
]

-- The topic that `Publish` writes to: one that is made if there is none.
unfoldable pub topic_or_new : Text → MemoryMessageStore → TopicData
topic_or_new topic s = elim (lookup topic s.topics) [
  | none ↦ make_topic s.default_buffer_size topic
  | some t ↦ t
]

-- `Publish`: the answer, `out_msg_id`, the store.
unfoldable pub publish :
    Text → List ℕ → ℕ → ℕ → ℕ → MemoryMessageStore → Bool × ℕ × MemoryMessageStore
publish topic payload ttl_ms now timestamp s =
    let (ok, msg_id, t) = publish_to payload ttl_ms now timestamp (topic_or_new topic s) in
    (ok, msg_id, record s { topics = insert topic t s.topics })

-- `Pull`
unfoldable pub pull :
    Text
    → Text
    → ℕ
    → Bool
    → ℕ
    → (ℕ → ℕ)
    → MemoryMessageStore
    → List StoredMessage × MemoryMessageStore
pull topic consumer_id max_messages is_group now_ms clock s = elim (lookup topic s.topics) [
  | none ↦ ([], s)
  | some t ↦
      let (result, t') = pull_from consumer_id max_messages is_group now_ms clock t in
      (result, record s { topics = insert topic t' s.topics })
]

-- `Ack`
unfoldable pub ack : Text → Text → ℕ → Bool → MemoryMessageStore → Bool × MemoryMessageStore
ack topic consumer_id msg_id is_group s = elim (lookup topic s.topics) [
  | none ↦ (false, s)
  | some t ↦
      let (ok, t') = ack_in consumer_id msg_id is_group t in
      (ok, record s { topics = insert topic t' s.topics })
]

-- `PullDlq`
unfoldable pub pull_dlq : Text → ℕ → MemoryMessageStore → List StoredMessage × MemoryMessageStore
pull_dlq topic max_messages s = elim (lookup (make_dlq_name topic) s.dlq_storage) [
  | none ↦ ([], s)
  | some dlq ↦
      let count = min max_messages (length dlq) in
      (
        take count dlq,
        record s { dlq_storage = insert (make_dlq_name topic) (drop count dlq) s.dlq_storage },
      )
]

-- `dlq_storage_[name].push_back(...)` for each message; no message, no entry.
unfoldable pub append_dlq :
    Text → List StoredMessage → List (Text × List StoredMessage) → List (Text × List StoredMessage)
append_dlq name [] storage = storage
append_dlq name (m ∷ new) storage = elim (lookup name storage) [
  | none ↦ insert name (m ∷ new) storage
  | some dlq ↦ insert name (dlq ++ m ∷ new) storage
]

-- A round of `RetryLoop`: every topic, with the clocks read for each (`now` and `now_ms` of the
-- place that the topic has).
unfoldable pub retry_round :
    ℕ
    → (ℕ → ℕ)
    → (ℕ → ℕ)
    → List (Text × TopicData)
    → MemoryMessageStore
    → List (Text × TopicData) × List (Text × List StoredMessage)
retry_round i now now_ms [] s = ([], s.dlq_storage)
retry_round i now now_ms ((name, t) ∷ topics) s =
    let (dead, t') =
      process_pending_retries s.max_retry_count s.pending_timeout_ms (now i) (now_ms i) t in
    let s' = record s {
      dlq_storage = append_dlq (make_dlq_name t.topic_name) dead s.dlq_storage;
    } in
    let (rest, dlq) = retry_round (suc i) now now_ms topics s' in ((name, t') ∷ rest, dlq)

unfoldable pub retry_all : (ℕ → ℕ) → (ℕ → ℕ) → MemoryMessageStore → MemoryMessageStore
retry_all now now_ms s =
    let (topics, dlq) = retry_round 0 now now_ms s.topics s in
    record s { topics = topics; dlq_storage = dlq }

-- A round of `ExpirationLoop`
unfoldable pub expire_round : ℕ → (ℕ → ℕ) → List (Text × TopicData) → List (Text × TopicData)
expire_round i now_ms [] = []
expire_round i now_ms ((name, t) ∷ topics) =
    (name, expire_topic_messages (now_ms i) t) ∷ expire_round (suc i) now_ms topics

unfoldable pub expire_all : (ℕ → ℕ) → MemoryMessageStore → MemoryMessageStore
expire_all now_ms s = record s { topics = expire_round 0 now_ms s.topics }
