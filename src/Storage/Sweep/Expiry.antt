-- ===== src/Storage/Sweep/Expiry.antt =====
-- The expiry thread: what it drops and what it leaves.
use proto_msg_queue.Prelude.{
  ℕ, ◌≡◌, refl, sym, subst, Bool, true, false, not, List, [], ◌∷◌, All, arith, filter, Bool-cases,
  inl, inr,
}
use proto_msg_queue.Map.{Text}
use proto_msg_queue.Storage.Message.{StoredMessage, is_expired}
use proto_msg_queue.Storage.Topic.{PendingMessage, PendingMap, TopicData}
use proto_msg_queue.Storage.Sweep.{expired_ids, expire_consumers, is_live, expire_topic_messages}
use proto_msg_queue.Storage.Sweep.Removal.{
  filter_congr, AllPending, AllPending-weaken, keep_consumer-AllPending, elem, IsSortedOut,
  IsSortedOut-more, erase_ids_stays,
}

-- The two ways in which the store writes the test agree.
pub is_live_lem : (now_ms : ℕ) (m : StoredMessage) → is_live now_ms m ≡ not (is_expired now_ms m)
unfolding is_live is_expired
is_live_lem now_ms m = ground arith

unfoldable pub is_fresh : ℕ → PendingMessage → Bool
is_fresh now_ms p = not (is_expired now_ms p.msg)

expired_ids_lem :
    (now_ms : ℕ) (pending : PendingMap)
    → All (IsSortedOut (is_fresh now_ms) (expired_ids now_ms pending)) pending
unfolding expired_ids IsSortedOut elem is_fresh
expired_ids_lem now_ms [] = tt
expired_ids_lem now_ms ((i, p) ∷ pending) =
    let rest = expired_ids_lem now_ms pending in
    let ids : List ℕ = expired_ids now_ms pending in
    elim (Bool-cases (is_expired now_ms p.msg)) [
      | inl old ↦
          let e : expired_ids now_ms ((i, p) ∷ pending) ≡ i ∷ ids = rw (old) refl in
          subst (λ l. All (IsSortedOut (is_fresh now_ms) l) ((i, p) ∷ pending)) (sym e)
            (ground arith, IsSortedOut-more (is_fresh now_ms) i ids pending rest)
      | inr live ↦
          let e : expired_ids now_ms ((i, p) ∷ pending) ≡ ids = rw (live) refl in
          subst (λ l. All (IsSortedOut (is_fresh now_ms) l) ((i, p) ∷ pending)) (sym e)
            (ground (arith, live), rest)
    ]

expire_consumers_lem :
    (now_ms : ℕ) (acks : List (Text × PendingMap))
    → AllPending (λ e. is_fresh now_ms e.1 ≡ true) (expire_consumers now_ms acks)
unfolding expire_consumers AllPending
expire_consumers_lem now_ms [] = tt
expire_consumers_lem now_ms ((key, pending) ∷ acks) =
    keep_consumer-AllPending (λ e. is_fresh now_ms e.1 ≡ true) key _ _
      (erase_ids_stays (is_fresh now_ms) (expired_ids now_ms pending) pending
        (expired_ids_lem now_ms pending))
      (expire_consumers_lem now_ms acks)

-- After the pass no message of the topic has expired, in the log, in the retry queue or pending; the
-- log and the retry queue keep the others, in their order.
pub expire_topic_messages_lem :
    (now_ms : ℕ) (t : TopicData)
    → (let t' = expire_topic_messages now_ms t in
        (t'.message_log ≡ filter (λ m. not (is_expired now_ms m)) t.message_log)
        × (t'.retry_queue ≡ filter (λ m. not (is_expired now_ms m)) t.retry_queue)
        × AllPending (λ e. is_expired now_ms e.1.msg ≡ false) t'.pending_acks)
unfolding expire_topic_messages is_fresh
expire_topic_messages_lem now_ms t = (
  filter_congr (is_live now_ms) _ t.message_log (is_live_lem now_ms),
  refl,
  AllPending-weaken (λ e. is_fresh now_ms e.1 ≡ true) _ _ (λ e g. ground (arith, g))
      (expire_consumers_lem now_ms t.pending_acks),
)
