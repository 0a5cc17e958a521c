-- ===== src/Tests/Storage.antt =====
-- One message from its publication to its confirmation, its retry and its expiry.
use proto_msg_queue.Prelude.{
  ◌≡◌, ◌≤◌, ◌&&◌, true, false, if◌then◌else◌, some, List, [], ◌∷◌, ◌++◌, length, take, filter, min,
  not, arith, refl, subst, ◌==◌,
}
use proto_msg_queue.Map.{Text, text_beq, text_eq, number_eq, lookup}
use proto_msg_queue.RingBuffer.{make}
use proto_msg_queue.RingBuffer.Contents.{make-Represents}
use proto_msg_queue.Storage.Message.{StoredMessage, is_expired, expiry, serialize, parse_message}
use proto_msg_queue.Storage.Message.RoundTrip.{parse_message-serialize}
use proto_msg_queue.Storage.Topic.{
  TopicData, make_topic, publish_to, pull_from, ack_in, make_consumer_key, is_pending,
  drain_ring_buffer, first_offset, offsets_of,
}
use proto_msg_queue.Storage.Ordering.{IsAscending, wanted}
use proto_msg_queue.Storage.Drain.{
  published, IsPublished, IsWaiting, drain_ring_buffer_lem, publish_to_lem,
}
use proto_msg_queue.Storage.Pulls.{pull_from_hands_out, pull_from_gathers}
use proto_msg_queue.Storage.Acks.{make_consumer_key_inj, ack_in_lem}
use proto_msg_queue.Storage.Sweep.{process_pending_retries, expire_topic_messages}
use proto_msg_queue.Storage.Sweep.Removal.{AllPending}
use proto_msg_queue.Storage.Sweep.Retries.{
  IsTried, IsTriedEntry, RetriesBounded, process_pending_retries_lem,
}
use proto_msg_queue.Storage.Sweep.Outcome.{all_pending, given_up}
use proto_msg_queue.Storage.Sweep.Expiry.{expire_topic_messages_lem}
use proto_msg_queue.Storage.Store.{MemoryMessageStore, pull_dlq, make_dlq_name}
use proto_msg_queue.Storage.DeadLetters.{pull_dlq_lem}

abbrev news : Text
news = 110 ∷ []

abbrev consumer : Text
consumer = 99 ∷ []

abbrev new_topic : TopicData
new_topic = make_topic 64 news

-- The message that `Publish` makes at the time 100.
abbrev message : StoredMessage
message = published 1 100 150 (1 ∷ 2 ∷ 3 ∷ [])

new_topic_waits : IsWaiting new_topic []
unfolding IsWaiting make_topic
new_topic_waits = ((make-Represents 64 (omega arith)).0, tt)

message-IsPublished : IsPublished message
unfolding IsPublished
message-IsPublished = (refl, omega arith, omega arith, omega arith, omega arith)

abbrev topic_after : TopicData
topic_after = (publish_to (1 ∷ 2 ∷ 3 ∷ []) 50 100 100 new_topic).2

publish_to_lem_example :
    ((publish_to (1 ∷ 2 ∷ 3 ∷ []) 50 100 100 new_topic).0 ≡ true)
    × ((publish_to (1 ∷ 2 ∷ 3 ∷ []) 50 100 100 new_topic).1 ≡ 1)
    × IsWaiting topic_after
        (if (publish_to (1 ∷ 2 ∷ 3 ∷ []) 50 100 100 new_topic).0 then message ∷ [] else [])
    × (topic_after.next_msg_id ≡ 2)
    × (topic_after.message_log ≡ [])
unfolding make_topic expiry make
publish_to_lem_example =
    publish_to_lem (1 ∷ 2 ∷ 3 ∷ []) 50 100 100 new_topic [] new_topic_waits message-IsPublished

message_waits : IsWaiting topic_after (message ∷ [])
message_waits =
    let (ok, id, waits, next, log) = publish_to_lem_example in
    subst (λ b. IsWaiting topic_after (if b then message ∷ [] else [])) ok waits

drain_ring_buffer_lem_example :
    (drain_ring_buffer topic_after).message_log ≡ topic_after.message_log ++ message ∷ []
    × IsWaiting (drain_ring_buffer topic_after) []
drain_ring_buffer_lem_example = drain_ring_buffer_lem topic_after (message ∷ []) message_waits

pull_from_gathers_example :
    (pull_from consumer 10 false 120 (λ n. 0) topic_after).0
    ≡ take 10 (
        filter
          (wanted
            (first_offset
              (lookup (make_consumer_key false consumer) (offsets_of false topic_after)))
            120
            (make_consumer_key false consumer)
            topic_after.pending_acks)
          (topic_after.message_log ++ message ∷ []))
unfolding IsAscending publish_to make_topic
pull_from_gathers_example =
    pull_from_gathers consumer 10 false 120 (λ n. 0) topic_after (message ∷ []) message_waits
      (omega arith, omega arith, tt) refl

pull_from_hands_out_example : length (pull_from consumer 10 false 120 (λ n. 0) topic_after).0 ≤ 10
pull_from_hands_out_example = (pull_from_hands_out consumer 10 false 120 (λ n. 0) topic_after).0

-- The message is pending for the consumer since the time 0 of the steady clock. With no retry allowed
-- it is given up.
abbrev busy_topic : TopicData
busy_topic = record new_topic {
  message_log = message ∷ [];
  pending_acks =
      (make_consumer_key false consumer, (1, record { msg = message; pull_time = 0 }) ∷ []) ∷ [];
}

ack_in_lem_example :
    ((ack_in consumer 1 false busy_topic).0
      ≡ is_pending (make_consumer_key false consumer) 1 busy_topic.pending_acks)
    × (is_pending
          (make_consumer_key false consumer)
          1
          (ack_in consumer 1 false busy_topic).1.pending_acks
        ≡ (if text_beq (make_consumer_key false consumer) (make_consumer_key false consumer)
              && (1 == 1)
            then false
            else is_pending (make_consumer_key false consumer) 1 busy_topic.pending_acks))
ack_in_lem_example = ack_in_lem consumer 1 false busy_topic (make_consumer_key false consumer) 1

make_consumer_key_inj_example : (true ≡ true) × (consumer ≡ consumer)
make_consumer_key_inj_example = make_consumer_key_inj true true consumer consumer refl

busy_topic-RetriesBounded : RetriesBounded 0 busy_topic
unfolding RetriesBounded IsTried IsTriedEntry AllPending make_topic
busy_topic-RetriesBounded = ((omega arith, tt), tt, ((omega arith, tt), tt))

process_pending_retries_lem_example :
    (process_pending_retries 0 5000 6000000000 120 busy_topic).0
    ≡ given_up 0 5000 6000000000 120 (all_pending busy_topic.pending_acks)
process_pending_retries_lem_example =
    (process_pending_retries_lem 0 5000 6000000000 120 busy_topic (omega arith)
      busy_topic-RetriesBounded).0

expire_topic_messages_lem_example :
    (expire_topic_messages 200 busy_topic).message_log
    ≡ filter (λ m. not (is_expired 200 m)) busy_topic.message_log
expire_topic_messages_lem_example = (expire_topic_messages_lem 200 busy_topic).0

parse_message-serialize_example :
    parse_message (serialize 1 100 150 (1 ∷ 2 ∷ 3 ∷ [])) ≡ some message
parse_message-serialize_example =
    parse_message-serialize 1 100 150 (1 ∷ 2 ∷ 3 ∷ []) (omega arith) (omega arith) (omega arith)
      (omega arith)

-- A store with one topic, whose dead letter queue holds the message.
abbrev store : MemoryMessageStore
store = record {
  topics = (news, busy_topic) ∷ [];
  dlq_storage = (make_dlq_name news, message ∷ []) ∷ [];
  default_buffer_size = 64;
  max_retry_count = 3;
  pending_timeout_ms = 5000;
}

pull_dlq_lem_example :
    (length (pull_dlq news 5 store).0 ≡ min 5 1)
    × (rest : List StoredMessage) × (lookup
          (make_dlq_name news)
          (pull_dlq news 5 store).1.dlq_storage
        ≡ some rest)
    × ((pull_dlq news 5 store).0 ++ rest ≡ message ∷ [])
unfolding make_dlq_name lookup
pull_dlq_lem_example = pull_dlq_lem news 5 store (message ∷ []) refl
