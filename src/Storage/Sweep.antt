-- ===== src/Storage/Sweep.antt =====
-- src/storage/memory_message_store.cpp: the two background threads, one pass over one topic each.
pub mod Removal
pub mod Outcome
pub mod Retries
pub mod Expiry
use proto_msg_queue.Prelude.{
  ℕ, suc, ◌+◌, ◌-◌, ◌/◌, ◌%◌, ◌^◌, Bool, true, false, not, ◌||◌, List, [], ◌∷◌, ◌++◌, leb, ◌==◌,
  if◌then◌else◌, filter,
}
use proto_msg_queue.Map.{Text, number_eq, erase}
use proto_msg_queue.Storage.Message.{StoredMessage, is_expired}
use proto_msg_queue.Storage.Topic.{PendingMessage, PendingMap, TopicData}

-- `elapsed_ms >= pending_timeout_ms`; the steady clock does not run backwards.
unfoldable pub is_due : ℕ → ℕ → PendingMessage → Bool
is_due timeout_ms now p = leb timeout_ms ((now - p.pull_time) / 1000000)

-- The retry queue and the messages for the dead letter queue, so far.
pub record Sweep : Type 0 where
  pub retry_queue : List StoredMessage
  pub dlq : List StoredMessage

-- What becomes of a message that is due.
unfoldable pub retire : ℕ → ℕ → ℕ → StoredMessage → Sweep → Sweep
retire max_retry_count now_ms msg_id m s =
    if is_expired now_ms m
    then s
    else if leb max_retry_count m.retry_count
    then record s { dlq = s.dlq ++ m ∷ [] }
    else record s {
      retry_queue =
          filter (λ x. not (x.id == msg_id)) s.retry_queue
          ++ (record m { retry_count = (m.retry_count + 1) % 2 ^ 32 }) ∷ [];
    }

-- The loop over one consumer's pending messages: the numbers to remove, and what was retired.
unfoldable pub scan_pending : ℕ → ℕ → ℕ → ℕ → PendingMap → Sweep → List ℕ × Sweep
scan_pending max_retry_count timeout_ms now now_ms [] s = ([], s)
scan_pending max_retry_count timeout_ms now now_ms ((msg_id, p) ∷ pending) s =
    if is_due timeout_ms now p
    then (let (to_remove, s') =
          scan_pending max_retry_count timeout_ms now now_ms pending
            (retire max_retry_count now_ms msg_id p.msg s) in
        (msg_id ∷ to_remove, s'))
    else scan_pending max_retry_count timeout_ms now now_ms pending s

-- `for (MessageId msg_id : to_remove) pending_map.erase(msg_id)`
unfoldable pub erase_ids : List ℕ → PendingMap → PendingMap
erase_ids [] pending = pending
erase_ids (i ∷ ids) pending = erase_ids ids (erase i pending)

-- A consumer whose map is empty now is erased as well.
unfoldable pub keep_consumer :
    Text → PendingMap → List (Text × PendingMap) → List (Text × PendingMap)
keep_consumer key [] acks = acks
keep_consumer key (p ∷ pending) acks = (key, p ∷ pending) ∷ acks

-- The loop over the consumers.
unfoldable pub scan_consumers :
    ℕ → ℕ → ℕ → ℕ → List (Text × PendingMap) → Sweep → List (Text × PendingMap) × Sweep
scan_consumers max_retry_count timeout_ms now now_ms [] s = ([], s)
scan_consumers max_retry_count timeout_ms now now_ms ((key, pending) ∷ acks) s =
    let (to_remove, s') = scan_pending max_retry_count timeout_ms now now_ms pending s in
    let (rest, s'') = scan_consumers max_retry_count timeout_ms now now_ms acks s' in
    (keep_consumer key (erase_ids to_remove pending) rest, s'')

-- `ProcessPendingRetries`: the topic, and the messages appended to its dead letter queue.
unfoldable pub process_pending_retries : ℕ → ℕ → ℕ → ℕ → TopicData → List StoredMessage × TopicData
process_pending_retries max_retry_count timeout_ms now now_ms t =
    let start : Sweep = record { retry_queue = t.retry_queue; dlq = [] } in
    let (acks, s) = scan_consumers max_retry_count timeout_ms now now_ms t.pending_acks start in
    (s.dlq, record t { retry_queue = s.retry_queue; pending_acks = acks })

-- The numbers of the expired messages among the pending ones.
unfoldable pub expired_ids : ℕ → PendingMap → List ℕ
expired_ids now_ms [] = []
expired_ids now_ms ((msg_id, p) ∷ pending) =
    let rest = expired_ids now_ms pending in if is_expired now_ms p.msg then msg_id ∷ rest else rest

unfoldable pub expire_consumers : ℕ → List (Text × PendingMap) → List (Text × PendingMap)
expire_consumers now_ms [] = []
expire_consumers now_ms ((key, pending) ∷ acks) =
    keep_consumer key (erase_ids (expired_ids now_ms pending) pending)
      (expire_consumers now_ms acks)

-- The test with which the new log is built: `expires_at == 0 || now_ms <= expires_at`.
unfoldable pub is_live : ℕ → StoredMessage → Bool
is_live now_ms m = (m.expires_at == 0) || leb now_ms m.expires_at

-- `ExpireTopicMessages`
unfoldable pub expire_topic_messages : ℕ → TopicData → TopicData
expire_topic_messages now_ms t = record t {
  message_log = filter (is_live now_ms) t.message_log;
  retry_queue = filter (λ m. not (is_expired now_ms m)) t.retry_queue;
  pending_acks = expire_consumers now_ms t.pending_acks;
}
