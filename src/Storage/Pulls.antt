-- ===== src/Storage/Pulls.antt =====
-- What `Pull` answers: how many messages, which ones, and what it notes of them.
use proto_msg_queue.Prelude.{
  ℕ, ◌≤◌, ◌<◌, ◌≡◌, ap, ◌∙◌, Bool, true, false, List, [], ◌∷◌, ◌++◌, length, take, All, All-append,
  All-weaken, arith, ltb, leb, filter, Bool-cases, inl, inr, length-append,
}
use proto_msg_queue.Map.{Text, text_eq, number_eq, lookup}
use proto_msg_queue.Storage.Message.{StoredMessage, is_expired}
use proto_msg_queue.Storage.Topic.{
  PendingMap, TopicData, Pulling, make_consumer_key, is_pending, assign, touch, pull_one, pull_log,
  pull_retries, pull_from, first_offset, offsets_of, drain_ring_buffer,
}
use proto_msg_queue.Storage.Ordering.{
  IsAscending, wanted, is_pending-assign, is_pending-touch, pull_log_gathers,
}
use proto_msg_queue.Storage.Drain.{IsWaiting, drain_ring_buffer_lem}

-- A message that has not expired and that the consumer is to confirm.
unfoldable pub IsHandedOut : ℕ → Text → List (Text × PendingMap) → StoredMessage → Type 0
IsHandedOut now_ms key acks m = (is_expired now_ms m ≡ false) × (is_pending key m.id acks ≡ true)

unfoldable pub IsGathered : ℕ → ℕ → Text → Pulling → Type 0
IsGathered max now_ms key p =
    (length p.result ≤ max) × All (IsHandedOut now_ms key p.pending_acks) p.result

IsGathered-touch :
    (max now_ms : ℕ) (key : Text) (p : Pulling)
    → IsGathered max now_ms key p
    → IsGathered max now_ms key (touch key p)
unfolding IsGathered IsHandedOut touch
IsGathered-touch max now_ms key p h = (
  h.0,
  All-weaken (IsHandedOut now_ms key p.pending_acks) _ p.result
      (λ m g. (g.0, is_pending-touch key p m.id ∙ g.1)) h.1,
)

IsGathered-assign :
    (max now_ms : ℕ) (clock : ℕ → ℕ) (key : Text) (m : StoredMessage) (p : Pulling)
    → IsGathered max now_ms key p
    → length p.result < max
    → is_expired now_ms m ≡ false
    → IsGathered max now_ms key (assign clock key m p)
unfolding IsGathered IsHandedOut assign
IsGathered-assign max now_ms clock key m p h less live =
    let noted = is_pending-assign clock key m p in
    (
      omega (arith, length-append p.result (m ∷ [])),
      All-append _ p.result (m ∷ [])
          (All-weaken (IsHandedOut now_ms key p.pending_acks) _ p.result
            (λ x g. (g.0, noted x.id ∙ ground (arith, g.1))) h.1)
          ((live, noted m.id ∙ ground arith), tt),
    )

IsGathered-offset :
    (max now_ms : ℕ) (key : Text) (offset : ℕ) (p : Pulling)
    → IsGathered max now_ms key p
    → IsGathered max now_ms key (record p { offset = offset })
unfolding IsGathered
IsGathered-offset max now_ms key offset p h = h

IsGathered-log :
    (max now_ms : ℕ) (clock : ℕ → ℕ) (key : Text) (log : List StoredMessage) (p : Pulling)
    → IsGathered max now_ms key p
    → IsGathered max now_ms key (pull_log max now_ms clock key log p)
unfolding pull_log pull_one
IsGathered-log max now_ms clock key [] p h = h
IsGathered-log max now_ms clock key (m ∷ log) p h = elim (Bool-cases (leb max (length p.result))) [
  | inl done ↦ rw (pull_log, done) h
  | inr more ↦ rw (pull_log, more) (IsGathered-log max now_ms clock key log _ (one (ground arith)))
]
  where
    one : length p.result < max → IsGathered max now_ms key (pull_one now_ms clock key m p)
    one less = elim (Bool-cases (ltb m.id p.offset)) [
      | inl before ↦ rw (pull_one, before) h
      | inr from ↦ elim (Bool-cases (is_expired now_ms m)) [
        | inl old ↦ rw (pull_one, from, old) (IsGathered-offset max now_ms key _ p h)
        | inr live ↦ elim (Bool-cases (is_pending key m.id p.pending_acks)) [
          | inl known ↦ rw (pull_one, from, live, known) (IsGathered-touch max now_ms key p h)
          | inr new ↦
              rw (pull_one, from, live, new)
                (IsGathered-offset max now_ms key _ (assign clock key m p)
                  (IsGathered-assign max now_ms clock key m p h less live))
        ]
      ]
    ]

IsGathered-retries :
    (max now_ms : ℕ) (clock : ℕ → ℕ) (key : Text) (queue : List StoredMessage) (p : Pulling)
    → IsGathered max now_ms key p
    → IsGathered max now_ms key (pull_retries max now_ms clock key queue p).1
unfolding pull_retries
IsGathered-retries max now_ms clock key [] p h = h
IsGathered-retries max now_ms clock key (m ∷ queue) p h =
    elim (Bool-cases (leb max (length p.result))) [
      | inl done ↦ rw (pull_retries, done) h
      | inr more ↦ elim (Bool-cases (is_expired now_ms m)) [
        | inl old ↦ rw (pull_retries, more, old) (IsGathered-retries max now_ms clock key queue p h)
        | inr live ↦ elim (Bool-cases (is_pending key m.id p.pending_acks)) [
          | inl known ↦
              rw (pull_retries, more, live, known)
                (IsGathered-retries max now_ms clock key queue (touch key p)
                  (IsGathered-touch max now_ms key p h))
          | inr new ↦
              rw (pull_retries, more, live, new)
                (IsGathered-retries max now_ms clock key queue (assign clock key m p)
                  (IsGathered-assign max now_ms clock key m p h (ground arith) live))
        ]
      ]
    ]

-- `Pull` answers with `max_messages` messages at most, none of them expired at the time that it
-- reads, and every one of them is pending for the consumer afterwards.
pub pull_from_hands_out :
    (consumer_id : Text) (max_messages : ℕ) (is_group : Bool) (now_ms : ℕ) (clock : ℕ → ℕ)
    (t : TopicData)
    → (let (result, t') = pull_from consumer_id max_messages is_group now_ms clock t in
        (length result ≤ max_messages)
        × All (IsHandedOut now_ms (make_consumer_key is_group consumer_id) t'.pending_acks) result)
unfolding pull_from IsGathered
pull_from_hands_out consumer_id max_messages is_group now_ms clock t =
    IsGathered-retries max_messages now_ms clock _ (drain_ring_buffer t).retry_queue _ (
      IsGathered-log max_messages now_ms clock _ (drain_ring_buffer t).message_log _
        (omega arith, tt))

-- A topic whose ring holds published messages, whose log and ring together are in the order of their
-- numbers, none of them the last of its type, and which has nothing to retry:
-- `Pull` answers with the oldest messages that the consumer has not passed, that have not expired and
-- that are not pending for it, up to `max_messages`, those still in the ring among them.
pub pull_from_gathers :
    (consumer_id : Text) (max_messages : ℕ) (is_group : Bool) (now_ms : ℕ) (clock : ℕ → ℕ)
    (t : TopicData) (q : List StoredMessage)
    → IsWaiting t q
    → IsAscending 0 (t.message_log ++ q)
    → t.retry_queue ≡ []
    → (let key = make_consumer_key is_group consumer_id in
        (pull_from consumer_id max_messages is_group now_ms clock t).0
        ≡ take max_messages (
            filter
              (wanted (first_offset (lookup key (offsets_of is_group t))) now_ms key t.pending_acks)
              (t.message_log ++ q)))
unfolding pull_from drain_ring_buffer offsets_of pull_retries
pull_from_gathers consumer_id max_messages is_group now_ms clock t q h ordered quiet =
    let key = make_consumer_key is_group consumer_id in
    let start : Pulling = record {
      result = [];
      offset = first_offset (lookup key (offsets_of is_group t));
      pending_acks = t.pending_acks;
    } in
    ap
      (λ r.
        (pull_retries max_messages now_ms clock key r (
          pull_log max_messages now_ms clock key (drain_ring_buffer t).message_log start)).1.result)
      quiet
    ∙ ap (λ l. (pull_log max_messages now_ms clock key l start).result)
        (drain_ring_buffer_lem t q h).0
    ∙ pull_log_gathers max_messages now_ms clock key 0 (t.message_log ++ q) start ordered
    ∙ ap (λ n. take n (filter (wanted start.offset now_ms key t.pending_acks) (t.message_log ++ q)))
        (omega arith)
