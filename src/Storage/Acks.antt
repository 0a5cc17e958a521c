-- ===== src/Storage/Acks.antt =====
-- The consumers' keys, and what `Ack` confirms.
use proto_msg_queue.Prelude.{
  is_some, ℕ, ◌≡◌, refl, sym, ap, ◌∙◌, Bool, true, false, ◌&&◌, some, List, arith, ◌==◌,
  if◌then◌else◌, Bool-cases, inl, inr,
}
use proto_msg_queue.Map.{
  Text, text_beq, text_beq_iff, text_eq, number_eq, lookup, insert, erase, lookup-insert,
  lookup-erase,
}
use proto_msg_queue.Storage.Topic.{
  PendingMap, TopicData, make_consumer_key, pending_of, is_pending, or_empty, ack_in,
}

-- Two consumers have one key only if they are one: a group and a subscriber never share theirs.
pub make_consumer_key_inj :
    (g h : Bool) (a b : Text) → make_consumer_key g a ≡ make_consumer_key h b → (g ≡ h) × (a ≡ b)
unfolding make_consumer_key
make_consumer_key_inj true true a b e = (refl, ground (arith, e))
make_consumer_key_inj false false a b e = (refl, ground (arith, e))
make_consumer_key_inj true false a b e = absurd (ground (arith, e))
make_consumer_key_inj false true a b e = absurd (ground (arith, e))

pub is_pending-insert :
    (key k : Text) (v : PendingMap) (acks : List (Text × PendingMap)) (i : ℕ)
    → is_pending k i (insert key v acks)
      ≡ (if text_beq key k then is_some (lookup i v) else is_pending k i acks)
unfolding is_pending pending_of or_empty
is_pending-insert key k v acks i = elim (Bool-cases (text_beq key k)) [
  | inl e ↦
      let found : lookup k (insert key v acks) ≡ some v =
        lookup-insert key k v acks ∙ rw (e) refl in
      ap (λ o. is_some (lookup i (or_empty o))) found ∙ rw (e) refl
  | inr e ↦
      let other : lookup k (insert key v acks) ≡ lookup k acks =
        lookup-insert key k v acks ∙ rw (e) refl in
      ap (λ o. is_some (lookup i (or_empty o))) other ∙ rw (e) refl
]

-- The entries of equal keys.
is_pending_same :
    (key k : Text) (acks : List (Text × PendingMap)) (i : ℕ)
    → text_beq key k ≡ true
    → is_pending k i acks ≡ is_some (lookup i (pending_of key acks))
unfolding is_pending
is_pending_same key k acks i e =
    ap (λ x. is_some (lookup i (pending_of x acks))) (sym ((text_beq_iff key k).0 e))

-- `Ack` answers whether the message was pending for this consumer, and afterwards exactly this entry
-- is gone: what is pending for any consumer is what was, but for this message and this consumer.
pub ack_in_lem :
    (consumer_id : Text) (msg_id : ℕ) (is_group : Bool) (t : TopicData) (k : Text) (i : ℕ)
    → (let key = make_consumer_key is_group consumer_id in
        let (ok, t') = ack_in consumer_id msg_id is_group t in
        (ok ≡ is_pending key msg_id t.pending_acks)
        × (is_pending k i t'.pending_acks
            ≡ (if text_beq key k && (msg_id == i) then false else is_pending k i t.pending_acks)))
unfolding ack_in is_pending
ack_in_lem consumer_id msg_id is_group t k i = elim (Bool-cases (is_some (lookup msg_id pending))) [
  | inl found ↦ rw (ack_in, found) (refl, after_erase)
  | inr missing ↦ rw (ack_in, missing) (refl, after_touch missing)
]
  where
    key : Text
    key = make_consumer_key is_group consumer_id

    pending : PendingMap
    pending = pending_of key t.pending_acks

    after_erase :
        is_pending k i (insert key (erase msg_id pending) t.pending_acks)
        ≡ (if text_beq key k && (msg_id == i) then false else is_pending k i t.pending_acks)
    after_erase =
        let erased = ap is_some (lookup-erase msg_id i pending) in
        let at = is_pending-insert key k (erase msg_id pending) t.pending_acks i in
        elim (Bool-cases (text_beq key k)) [
          | inl e ↦ ground (arith, erased, at, e, is_pending_same key k t.pending_acks i e)
          | inr e ↦ ground (arith, at, e)
        ]

    after_touch :
        is_some (lookup msg_id pending) ≡ false
        → is_pending k i (insert key pending t.pending_acks)
          ≡ (if text_beq key k && (msg_id == i) then false else is_pending k i t.pending_acks)
    after_touch missing =
        let at = is_pending-insert key k pending t.pending_acks i in
        elim (Bool-cases (text_beq key k)) [
          | inl e ↦ ground (arith, missing, at, e, is_pending_same key k t.pending_acks i e)
          | inr e ↦ ground (arith, at, e)
        ]
