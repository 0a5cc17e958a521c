-- ===== src/Storage/Drain.antt =====
-- `Publish` and `DrainRingBuffer`: what a producer writes into the ring comes out in the log.
use proto_msg_queue.Prelude.{
  ℕ, zero, suc, ◌+◌, ◌≤◌, ◌<◌, ◌^◌, ◌%◌, ◌≡◌, refl, sym, ap, ◌∙◌, subst, true, false, none, some,
  List, [], ◌∷◌, ◌++◌, map, length, All, All-append, arith, ltb, if◌then◌else◌, Bool-cases, inl,
  inr,
}
use proto_msg_queue.Protocol.Frame.{max_payload_size}
use proto_msg_queue.RingBuffer.{SpscRingBuffer, push, pop}
use proto_msg_queue.RingBuffer.Contents.{cost, Represents}
use proto_msg_queue.RingBuffer.Queue.{enqueue, dequeue, push_refines, pop_refines}
use proto_msg_queue.Storage.Message.{
  StoredMessage, expiry, serialize, parse_message, message_header_size,
}
use proto_msg_queue.Storage.Message.RoundTrip.{length-serialize, parse_message-serialize}
use proto_msg_queue.Storage.Topic.{
  TopicData, publish_to, keep_parsed, drain_ring, drain_ring_buffer,
}

-- A message as `Publish` makes it.
abbrev pub published : ℕ → ℕ → ℕ → List ℕ → StoredMessage
published msg_id timestamp expires_at payload = record {
  id = msg_id;
  topic_name = [];
  payload = payload;
  timestamp = timestamp;
  retry_count = 0;
  expires_at = expires_at;
}

-- Its fields fit their types, and its bytes the limit that `Pop` sets.
unfoldable pub IsPublished : StoredMessage → Type 0
IsPublished m =
    (m ≡ published m.id m.timestamp m.expires_at m.payload)
    × (m.id < 2 ^ 64)
    × (m.timestamp < 2 ^ 64)
    × (m.expires_at < 2 ^ 64)
    × (message_header_size + length m.payload ≤ max_payload_size)

abbrev pub wire : StoredMessage → List ℕ
wire m = serialize m.id m.timestamp m.expires_at m.payload

-- The ring of the topic holds these messages.
unfoldable pub IsWaiting : TopicData → List StoredMessage → Type 0
IsWaiting t q = Represents t.ring_buffer (map wire q) × All IsPublished q

parse_wire : (m : StoredMessage) → IsPublished m → parse_message (wire m) ≡ some m
unfolding IsPublished
parse_wire m h =
    parse_message-serialize m.id m.timestamp m.expires_at m.payload h.1 h.2 h.3 (omega (arith, h.4))
    ∙ ap some (sym h.0)

drain_ring-none :
    (fuel : ℕ) (r : SpscRingBuffer) → (pop r).0 ≡ none → drain_ring (suc fuel) r ≡ ([], (pop r).1)
unfolding drain_ring
drain_ring-none fuel r e = rw (drain_ring, e) refl

drain_ring-some :
    (fuel : ℕ) (r : SpscRingBuffer) (m : StoredMessage)
    → IsPublished m
    → (pop r).0 ≡ some (wire m)
    → drain_ring (suc fuel) r ≡ (m ∷ (drain_ring fuel (pop r).1).0, (drain_ring fuel (pop r).1).1)
unfolding drain_ring keep_parsed
drain_ring-some fuel r m h e = rw (drain_ring, e, parse_wire m h) refl

dequeue_wire :
    (m : StoredMessage) (q : List (List ℕ))
    → IsPublished m
    → dequeue (wire m ∷ q) ≡ (some (wire m), q)
unfolding dequeue IsPublished
dequeue_wire m q h = ground (arith, length-serialize m.id m.timestamp m.expires_at m.payload)

pub drain_ring_lem :
    (fuel : ℕ) (r : SpscRingBuffer) (q : List StoredMessage)
    → Represents r (map wire q)
    → All IsPublished q
    → cost (map wire q) < fuel
    → ((drain_ring fuel r).0 ≡ q)
      × Represents (drain_ring fuel r).1 []
      × ((drain_ring fuel r).1.capacity ≡ r.capacity)
unfolding dequeue
drain_ring_lem zero r q h good f = absurd (omega arith)
drain_ring_lem (suc fuel) r [] h good f =
    let (a, v, c) = pop_refines r [] h in rw (drain_ring-none fuel r a) (refl, v, c)
drain_ring_lem (suc fuel) r (m ∷ q) h good f =
    let (a, v, c) = pop_refines r (wire m ∷ map wire q) h in
    let d = dequeue_wire m (map wire q) good.0 in
    let (e, w, k) =
      drain_ring_lem fuel (pop r).1 q (subst (λ x. Represents (pop r).1 x.1) d v) good.1
        (omega arith) in
    rw (drain_ring-some fuel r m good.0 (a ∙ ap (λ x. x.0) d)) (ap (λ l. m ∷ l) e, w, k ∙ c)

-- `DrainRingBuffer` moves the published messages that wait in the ring, all and in their order, to
-- the end of the log, and leaves the ring empty.
pub drain_ring_buffer_lem :
    (t : TopicData) (q : List StoredMessage)
    → IsWaiting t q
    → (drain_ring_buffer t).message_log ≡ t.message_log ++ q × IsWaiting (drain_ring_buffer t) []
unfolding drain_ring_buffer IsWaiting
drain_ring_buffer_lem t q h =
    let (e, w, c) = drain_ring_lem t.ring_buffer.capacity t.ring_buffer q h.0 h.1 h.0.size in
    (ap (λ l. t.message_log ++ l) e, (w, tt))

map_snoc :
    (q : List StoredMessage) (m : StoredMessage)
    → map wire q ++ wire m ∷ [] ≡ map wire (q ++ m ∷ [])
map_snoc [] m = refl
map_snoc (x ∷ q) m = ap (λ l. wire x ∷ l) (map_snoc q m)

All-snoc :
    (q : List StoredMessage) (m : StoredMessage)
    → All IsPublished q
    → IsPublished m
    → All IsPublished (q ++ m ∷ [])
All-snoc q m hq hm = All-append IsPublished q (m ∷ []) hq (hm, tt)

enqueue_wire :
    (cap : ℕ) (m : StoredMessage) (q : List (List ℕ))
    → enqueue cap (wire m) q ≡ (
        if ltb (cost q + 4 + message_header_size + length m.payload) cap
        then (true, q ++ wire m ∷ [])
        else (false, q))
unfolding enqueue
enqueue_wire cap m q = ground (arith, length-serialize m.id m.timestamp m.expires_at m.payload)

-- `Publish` gives out the next number, and its answer is whether the message fits the ring: then the
-- message waits behind the others, and where it does not fit the waiting messages stay as they were.
-- The log stays as it is, and the next number rises in both cases. The ring is to hold
-- published messages, and the new one's fields to fit their types and its bytes the limit of `Pop`.
pub publish_to_lem :
    (payload : List ℕ) (ttl_ms now timestamp : ℕ) (t : TopicData) (q : List StoredMessage)
    → IsWaiting t q
    → IsPublished (published t.next_msg_id timestamp (expiry ttl_ms now) payload)
    → (let m = published t.next_msg_id timestamp (expiry ttl_ms now) payload in
        let (ok, msg_id, t') = publish_to payload ttl_ms now timestamp t in
        (ok
          ≡ ltb
              (cost (map wire q) + 4 + message_header_size + length payload)
              t.ring_buffer.capacity)
        × (msg_id ≡ t.next_msg_id)
        × IsWaiting t' (if ok then q ++ m ∷ [] else q)
        × (t'.next_msg_id ≡ (t.next_msg_id + 1) % 2 ^ 64)
        × (t'.message_log ≡ t.message_log))
unfolding publish_to IsWaiting
publish_to_lem payload ttl_ms now timestamp t q h good =
    elim (Bool-cases (ltb (cost (map wire q) + 4 + message_header_size + length payload) cap)) [
      | inl fits ↦
          let both : enqueue cap (wire m) (map wire q) ≡ (true, map wire q ++ wire m ∷ []) =
            d ∙ rw (fits) refl in
          let ok : (push (wire m) t.ring_buffer).0 ≡ true = a ∙ ap (λ x. x.0) both in
          let w : Represents (push (wire m) t.ring_buffer).1 (map wire (q ++ m ∷ [])) =
            subst (Represents (push (wire m) t.ring_buffer).1) (ap (λ x. x.1) both ∙ map_snoc q m)
              v in
          rw (ok, fits) (refl, refl, (w, All-snoc q m h.1 good), refl, refl)
      | inr full ↦
          let both : enqueue cap (wire m) (map wire q) ≡ (false, map wire q) = d ∙ rw (full) refl in
          let ok : (push (wire m) t.ring_buffer).0 ≡ false = a ∙ ap (λ x. x.0) both in
          let w : Represents (push (wire m) t.ring_buffer).1 (map wire q) =
            subst (Represents (push (wire m) t.ring_buffer).1) (ap (λ x. x.1) both) v in
          rw (ok, full) (refl, refl, (w, h.1), refl, refl)
    ]
  where
    cap : ℕ
    cap = t.ring_buffer.capacity

    m : StoredMessage
    m = published t.next_msg_id timestamp (expiry ttl_ms now) payload

    a : (push (wire m) t.ring_buffer).0 ≡ (enqueue cap (wire m) (map wire q)).0
    a = (push_refines (wire m) t.ring_buffer (map wire q) h.0).0

    v : Represents (push (wire m) t.ring_buffer).1 (enqueue cap (wire m) (map wire q)).1
    v = (push_refines (wire m) t.ring_buffer (map wire q) h.0).1

    d : enqueue cap (wire m) (map wire q) ≡ (
        if ltb (cost (map wire q) + 4 + message_header_size + length payload) cap
        then (true, map wire q ++ wire m ∷ [])
        else (false, map wire q))
    d = enqueue_wire cap m (map wire q)
