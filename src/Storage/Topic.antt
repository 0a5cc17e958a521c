-- ===== src/Storage/Topic.antt =====
-- src/storage/memory_message_store.cpp and its header: `TopicData` and what the store does to one
-- topic. The readings of the two clocks are arguments, milliseconds of the system clock and
-- nanoseconds of the steady one.
use proto_msg_queue.Prelude.{
  ℕ, zero, suc, ◌+◌, ◌%◌, ◌^◌, Bool, true, false, Option, none, some, List, [], ◌∷◌, ◌++◌, length,
  ltb, leb, ◌==◌, if◌then◌else◌, is_some,
}
use proto_msg_queue.Map.{Text, number_eq, text_eq, lookup, insert, erase}
use proto_msg_queue.RingBuffer.{SpscRingBuffer, make, push, pop}
use proto_msg_queue.Storage.Message.{StoredMessage, is_expired, expiry, serialize, parse_message}

-- `struct PendingMessage`
pub record PendingMessage : Type 0 where
  pub msg : StoredMessage
  pub pull_time : ℕ

abbrev pub PendingMap : Type 0
PendingMap = List (ℕ × PendingMessage)

-- `struct TopicData`; the mutex makes each operation on it one step.
pub record TopicData : Type 0 where
  pub topic_name : Text
  pub ring_buffer : SpscRingBuffer
  pub message_log : List StoredMessage
  pub retry_queue : List StoredMessage
  pub subscriber_offsets : List (Text × ℕ)
  pub group_offsets : List (Text × ℕ)
  pub pending_acks : List (Text × PendingMap)
  pub next_msg_id : ℕ

-- The constructor, with the name that its callers give it.
unfoldable pub make_topic : ℕ → Text → TopicData
make_topic buffer_size name = record {
  topic_name = name;
  ring_buffer = make buffer_size;
  message_log = [];
  retry_queue = [];
  subscriber_offsets = [];
  group_offsets = [];
  pending_acks = [];
  next_msg_id = 1;
}

-- `MakeConsumerKey`: "grp:" or "sub:" before the name.
unfoldable pub make_consumer_key : Bool → Text → Text
make_consumer_key is_group id =
    if is_group then 103 ∷ 114 ∷ 112 ∷ 58 ∷ id else 115 ∷ 117 ∷ 98 ∷ 58 ∷ id

-- `Publish` on its topic: the answer, the number given out, and the topic. The clock is read for the
-- expiry time at `now` and again for the time stamp at `timestamp`.
unfoldable pub publish_to : List ℕ → ℕ → ℕ → ℕ → TopicData → Bool × ℕ × TopicData
publish_to payload ttl_ms now timestamp t =
    let msg_id = t.next_msg_id in
    let serialized = serialize msg_id timestamp (expiry ttl_ms now) payload in
    let (ok, ring) = push serialized t.ring_buffer in
    (ok, msg_id, record t { ring_buffer = ring; next_msg_id = (msg_id + 1) % 2 ^ 64 })

-- The messages of `DrainRingBuffer`, those whose bytes it can read.
unfoldable pub keep_parsed : Option StoredMessage → List StoredMessage → List StoredMessage
keep_parsed none log = log
keep_parsed (some m) log = m ∷ log

-- The loop of `DrainRingBuffer`. A message takes five places at least, so the capacity bounds the
-- rounds.
unfoldable pub drain_ring : ℕ → SpscRingBuffer → List StoredMessage × SpscRingBuffer
drain_ring zero r = ([], r)
drain_ring (suc fuel) r =
    let (o, r') = pop r in
    elim o [
      | none ↦ ([], r')
      | some buf ↦ (keep_parsed (parse_message buf) (drain_ring fuel r').0, (drain_ring fuel r').1)
    ]

-- `DrainRingBuffer`
unfoldable pub drain_ring_buffer : TopicData → TopicData
drain_ring_buffer t =
    let (new, ring) = drain_ring t.ring_buffer.capacity t.ring_buffer in
    record t { ring_buffer = ring; message_log = t.message_log ++ new }

unfoldable pub or_empty : Option PendingMap → PendingMap
or_empty none = []
or_empty (some m) = m

-- `pending_acks[key]`, which puts an empty map there if there is none.
unfoldable pub pending_of : Text → List (Text × PendingMap) → PendingMap
pending_of key acks = or_empty (lookup key acks)

-- What `Pull` has gathered: its result, the consumer's offset, the pending messages.
pub record Pulling : Type 0 where
  pub result : List StoredMessage
  pub offset : ℕ
  pub pending_acks : List (Text × PendingMap)

-- `pending_map.find(id) != end()`
unfoldable pub is_pending : Text → ℕ → List (Text × PendingMap) → Bool
is_pending key id acks = is_some (lookup id (pending_of key acks))

-- `result.push_back(msg)` and the entry in the pending map, with a reading of the steady clock;
-- `clock n` is the one taken for the message in place `n` of the result.
unfoldable pub assign : (ℕ → ℕ) → Text → StoredMessage → Pulling → Pulling
assign clock key m p = record p {
  result = p.result ++ m ∷ [];
  pending_acks =
      insert key
        (insert m.id (record { msg = m; pull_time = clock (length p.result) })
          (pending_of key p.pending_acks))
        p.pending_acks;
}

-- The map that `pending_acks[key]` leaves where the message is pending already.
unfoldable pub touch : Text → Pulling → Pulling
touch key p = record p { pending_acks = insert key (pending_of key p.pending_acks) p.pending_acks }

-- One message of the log.
unfoldable pub pull_one : ℕ → (ℕ → ℕ) → Text → StoredMessage → Pulling → Pulling
pull_one now_ms clock key m p =
    if ltb m.id p.offset
    then p
    else if is_expired now_ms m
    then record p { offset = (m.id + 1) % 2 ^ 64 }
    else if is_pending key m.id p.pending_acks
    then touch key p
    else (record (assign clock key m p) { offset = (m.id + 1) % 2 ^ 64 })

-- The loop over the log.
unfoldable pub pull_log : ℕ → ℕ → (ℕ → ℕ) → Text → List StoredMessage → Pulling → Pulling
pull_log max_messages now_ms clock key [] p = p
pull_log max_messages now_ms clock key (m ∷ log) p =
    if leb max_messages (length p.result)
    then p
    else pull_log max_messages now_ms clock key log (pull_one now_ms clock key m p)

-- The loop over the retry queue: what stays in it, and what is gathered.
unfoldable pub pull_retries :
    ℕ → ℕ → (ℕ → ℕ) → Text → List StoredMessage → Pulling → List StoredMessage × Pulling
pull_retries max_messages now_ms clock key [] p = ([], p)
pull_retries max_messages now_ms clock key (m ∷ queue) p =
    if leb max_messages (length p.result)
    then (m ∷ queue, p)
    else if is_expired now_ms m
    then pull_retries max_messages now_ms clock key queue p
    else if is_pending key m.id p.pending_acks
    then (let (kept, p') = pull_retries max_messages now_ms clock key queue (touch key p) in
        (m ∷ kept, p'))
    else pull_retries max_messages now_ms clock key queue (assign clock key m p)

-- The offset to start from; zero stands for none.
unfoldable pub first_offset : Option ℕ → ℕ
first_offset none = 1
first_offset (some offset) = if offset == 0 then 1 else offset

unfoldable pub offsets_of : Bool → TopicData → List (Text × ℕ)
offsets_of is_group t = if is_group then t.group_offsets else t.subscriber_offsets

unfoldable pub set_offset : Bool → Text → ℕ → TopicData → TopicData
set_offset is_group key offset t =
    if is_group
    then record t { group_offsets = insert key offset t.group_offsets }
    else record t { subscriber_offsets = insert key offset t.subscriber_offsets }

-- `Pull` on its topic.
unfoldable pub pull_from :
    Text → ℕ → Bool → ℕ → (ℕ → ℕ) → TopicData → List StoredMessage × TopicData
pull_from consumer_id max_messages is_group now_ms clock t0 =
    let t = drain_ring_buffer t0 in
    let key = make_consumer_key is_group consumer_id in
    let start : Pulling = record {
      result = [];
      offset = first_offset (lookup key (offsets_of is_group t));
      pending_acks = t.pending_acks;
    } in
    let logged = pull_log max_messages now_ms clock key t.message_log start in
    let (kept, p) = pull_retries max_messages now_ms clock key t.retry_queue logged in
    (
      p.result,
      record (set_offset is_group key p.offset t) {
        retry_queue = kept;
        pending_acks = p.pending_acks;
      },
    )

-- `Ack` on its topic.
unfoldable pub ack_in : Text → ℕ → Bool → TopicData → Bool × TopicData
ack_in consumer_id msg_id is_group t =
    let key = make_consumer_key is_group consumer_id in
    let pending = pending_of key t.pending_acks in
    if is_some (lookup msg_id pending)
    then (true, record t { pending_acks = insert key (erase msg_id pending) t.pending_acks })
    else (false, record t { pending_acks = insert key pending t.pending_acks })
