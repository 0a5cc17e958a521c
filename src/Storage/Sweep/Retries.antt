-- ===== src/Storage/Sweep/Retries.antt =====
-- The retry thread: how often a message is tried, and when it is given up.
use proto_msg_queue.Prelude.{
  ℕ, ◌≤◌, ◌<◌, ◌^◌, ◌≡◌, refl, sym, subst, Bool, true, false, not, List, [], ◌∷◌, All, All-append,
  arith, leb, ◌==◌, filter, Bool-cases, inl, inr,
}
use proto_msg_queue.Map.{Text}
use proto_msg_queue.Storage.Message.{StoredMessage, is_expired}
use proto_msg_queue.Storage.Topic.{PendingMessage, PendingMap, TopicData}
use proto_msg_queue.Storage.Sweep.{
  is_due, Sweep, retire, scan_pending, scan_consumers, process_pending_retries,
}
use proto_msg_queue.Storage.Sweep.Outcome.{
  all_pending, requeue, given_up, tried_again, scan_consumers-given_up,
}
use proto_msg_queue.Storage.Sweep.Removal.{
  filter-All, AllPending, AllPending-weaken, keep_consumer-AllPending, erase_ids-All, elem,
  IsSortedOut, IsSortedOut-more, erase_ids_stays,
}

-- Tried again `max` times at most.
unfoldable pub IsTried : ℕ → StoredMessage → Type 0
IsTried max m = m.retry_count ≤ max

unfoldable pub IsTriedEntry : ℕ → ℕ × PendingMessage → Type 0
IsTriedEntry max e = IsTried max e.1.msg

-- No message of the topic was tried again more than `max` times.
unfoldable pub RetriesBounded : ℕ → TopicData → Type 0
RetriesBounded max t =
    All (IsTried max) t.message_log
    × All (IsTried max) t.retry_queue
    × AllPending (IsTriedEntry max) t.pending_acks

unfoldable pub IsSweep : ℕ → Sweep → Type 0
IsSweep max s = All (IsTried max) s.retry_queue × All (λ m. m.retry_count ≡ max) s.dlq

retire-IsSweep :
    (max now_ms msg_id : ℕ) (m : StoredMessage) (s : Sweep)
    → max < 2 ^ 32
    → IsTried max m
    → IsSweep max s
    → IsSweep max (retire max now_ms msg_id m s)
unfolding IsSweep IsTried retire
retire-IsSweep max now_ms msg_id m s small tried h = elim (Bool-cases (is_expired now_ms m)) [
  | inl old ↦ rw (retire, old) h
  | inr live ↦ elim (Bool-cases (leb max m.retry_count)) [
    | inl spent ↦ rw (retire, live, spent) (h.0, All-append _ s.dlq (m ∷ []) h.1 (ground arith, tt))
    | inr left ↦
        rw (retire, live, left)
          (
            All-append _ (filter (λ x. not (x.id == msg_id)) s.retry_queue) _
                (filter-All (IsTried max) _ s.retry_queue h.0) (ground arith, tt),
            h.1,
          )
  ]
]

-- What a loop over pending messages is to leave: every one that is due marked for removal.
unfoldable IsScanned : ℕ → (PendingMessage → Bool) → PendingMap → List ℕ × Sweep → Type 0
IsScanned max stays pending r = IsSweep max r.1 × All (IsSortedOut stays r.0) pending

unfoldable pub waits : ℕ → ℕ → PendingMessage → Bool
waits timeout_ms now p = not (is_due timeout_ms now p)

scan_pending_lem :
    (max timeout_ms now now_ms : ℕ) (pending : PendingMap) (s : Sweep)
    → max < 2 ^ 32
    → All (IsTriedEntry max) pending
    → IsSweep max s
    → IsScanned max
        (waits timeout_ms now)
        pending
        (scan_pending max timeout_ms now now_ms pending s)
unfolding scan_pending IsTriedEntry IsScanned IsSortedOut elem waits
scan_pending_lem max timeout_ms now now_ms [] s small tried h = (h, tt)
scan_pending_lem max timeout_ms now now_ms ((i, p) ∷ pending) s small tried h =
    elim (Bool-cases (is_due timeout_ms now p)) [
      | inl due ↦
          let s' : Sweep = retire max now_ms i p.msg s in
          let (rest, sorted) =
            scan_pending_lem max timeout_ms now now_ms pending s' small tried.1
              (retire-IsSweep max now_ms i p.msg s small tried.0 h) in
          let r : List ℕ × Sweep = scan_pending max timeout_ms now now_ms pending s' in
          let e : scan_pending max timeout_ms now now_ms ((i, p) ∷ pending) s ≡ (i ∷ r.0, r.1) =
            rw (scan_pending, due) refl in
          subst (IsScanned max (waits timeout_ms now) ((i, p) ∷ pending)) (sym e)
            (rest, (ground arith, IsSortedOut-more (waits timeout_ms now) i r.0 pending sorted))
      | inr early ↦
          let (rest, sorted) =
            scan_pending_lem max timeout_ms now now_ms pending s small tried.1 h in
          let e : scan_pending max timeout_ms now now_ms ((i, p) ∷ pending) s
              ≡ scan_pending max timeout_ms now now_ms pending s =
            rw (scan_pending, early) refl in
          subst (IsScanned max (waits timeout_ms now) ((i, p) ∷ pending)) (sym e)
            (rest, (ground (arith, early), sorted))
    ]

-- The entries that are left after it.
unfoldable IsSwept : ℕ → (PendingMessage → Bool) → List (Text × PendingMap) × Sweep → Type 0
IsSwept max stays r =
    AllPending (IsTriedEntry max) r.0 × AllPending (λ e. stays e.1 ≡ true) r.0 × IsSweep max r.1

scan_consumers_lem :
    (max timeout_ms now now_ms : ℕ) (acks : List (Text × PendingMap)) (s : Sweep)
    → max < 2 ^ 32
    → AllPending (IsTriedEntry max) acks
    → IsSweep max s
    → IsSwept max (waits timeout_ms now) (scan_consumers max timeout_ms now now_ms acks s)
unfolding scan_consumers IsSwept AllPending IsScanned
scan_consumers_lem max timeout_ms now now_ms [] s small tried h = (tt, tt, h)
scan_consumers_lem max timeout_ms now now_ms ((key, pending) ∷ acks) s small tried h =
    let (s', sorted) = scan_pending_lem max timeout_ms now now_ms pending s small tried.0 h in
    let r : List ℕ × Sweep = scan_pending max timeout_ms now now_ms pending s in
    let (tried', waits', last) =
      scan_consumers_lem max timeout_ms now now_ms acks r.1 small tried.1 s' in
    (
      keep_consumer-AllPending (IsTriedEntry max) key _ _
          (erase_ids-All (IsTriedEntry max) r.0 pending tried.0) tried',
      keep_consumer-AllPending (λ e. waits timeout_ms now e.1 ≡ true) key _ _
          (erase_ids_stays (waits timeout_ms now) r.0 pending sorted) waits',
      last,
    )

-- For a limit of 32 bits, and where no message was tried again more often than it: a pass appends to
-- the dead letter queue exactly the messages, of all consumers in turn, that are due, have not expired
-- and have no try left, each tried again exactly as often as the limit; it queues again, with one more
-- try counted, exactly those that are due, have not expired and have one left, each in place of a
-- queued message of its number; afterwards nothing that is due is pending any more, and no message was
-- tried again more often than the limit.
pub process_pending_retries_lem :
    (max timeout_ms now now_ms : ℕ) (t : TopicData)
    → max < 2 ^ 32
    → RetriesBounded max t
    → (let (dead, t') = process_pending_retries max timeout_ms now now_ms t in
        (dead ≡ given_up max timeout_ms now now_ms (all_pending t.pending_acks))
        × (t'.retry_queue
            ≡ requeue t.retry_queue
                (tried_again max timeout_ms now now_ms (all_pending t.pending_acks)))
        × RetriesBounded max t'
        × All (λ m. m.retry_count ≡ max) dead
        × AllPending (λ e. is_due timeout_ms now e.1 ≡ false) t'.pending_acks)
unfolding process_pending_retries RetriesBounded IsSwept IsSweep waits
process_pending_retries_lem max timeout_ms now now_ms t small h =
    let (log, queue, acks) = h in
    let (tried, stay, (queue', dead)) =
      scan_consumers_lem max timeout_ms now now_ms t.pending_acks _ small acks (queue, tt) in
    let (given, again) = scan_consumers-given_up max timeout_ms now now_ms t.pending_acks _ in
    (
      given,
      again,
      (log, queue', tried),
      dead,
      AllPending-weaken (λ e. waits timeout_ms now e.1 ≡ true) _ _ (λ e g. ground (arith, g)) stay,
    )
