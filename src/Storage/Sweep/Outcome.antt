-- ===== src/Storage/Sweep/Outcome.antt =====
-- Which messages the retry thread gives up and which it tries again, with no loops over consumers.
use proto_msg_queue.Prelude.{
  ℕ, ◌+◌, ◌%◌, ◌^◌, ◌≡◌, refl, sym, ap, ◌∙◌, Bool, not, ◌&&◌, List, [], ◌∷◌, ◌++◌, map, leb, ◌==◌,
  if◌then◌else◌, filter, Bool-cases, inl, inr, append-nil, append_assoc,
}
use proto_msg_queue.Map.{Text}
use proto_msg_queue.Storage.Message.{StoredMessage, is_expired}
use proto_msg_queue.Storage.Topic.{PendingMessage, PendingMap}
use proto_msg_queue.Storage.Sweep.{is_due, Sweep, retire, scan_pending, scan_consumers}

-- The pending messages of all consumers in turn
unfoldable pub all_pending : List (Text × PendingMap) → PendingMap
all_pending [] = []
all_pending ((key, pending) ∷ acks) = pending ++ all_pending acks

-- A message whose turn it is: it waited long enough, and has not expired.
unfoldable pub is_up : ℕ → ℕ → ℕ → ℕ × PendingMessage → Bool
is_up timeout_ms now now_ms e = is_due timeout_ms now e.1 && not (is_expired now_ms e.1.msg)

-- A message with no try left
unfoldable pub is_spent : ℕ → ℕ × PendingMessage → Bool
is_spent max e = leb max e.1.msg.retry_count

-- Messages queued again, one more try counted, each in place of the one of its number.
unfoldable pub requeue : List StoredMessage → PendingMap → List StoredMessage
requeue queue [] = queue
requeue queue ((i, p) ∷ es) =
    requeue
      (filter (λ x. not (x.id == i)) queue
        ++ (record p.msg { retry_count = (p.msg.retry_count + 1) % 2 ^ 32 }) ∷ [])
      es

module _ (max timeout_ms now now_ms : ℕ) where
  -- Those to be given up, and those to be tried again
  abbrev pub given_up : PendingMap → List StoredMessage
  given_up es = map (λ e. e.1.msg) (filter (is_spent max) (filter (is_up timeout_ms now now_ms) es))

  abbrev pub tried_again : PendingMap → PendingMap
  tried_again es = filter (λ e. not (is_spent max e)) (filter (is_up timeout_ms now now_ms) es)

  unfoldable retire_all : PendingMap → Sweep → Sweep
  retire_all [] s = s
  retire_all ((i, p) ∷ es) s =
      retire_all es (if is_due timeout_ms now p then retire max now_ms i p.msg s else s)

  retire_all-append :
      (a b : PendingMap) (s : Sweep) → retire_all (a ++ b) s ≡ retire_all b (retire_all a s)
  unfolding retire_all
  retire_all-append [] b s = refl
  retire_all-append ((i, p) ∷ a) b s = retire_all-append a b _

  scan_pending-retire_all :
      (pending : PendingMap) (s : Sweep)
      → (scan_pending max timeout_ms now now_ms pending s).1 ≡ retire_all pending s
  unfolding retire_all scan_pending
  scan_pending-retire_all [] s = refl
  scan_pending-retire_all ((i, p) ∷ pending) s = elim (Bool-cases (is_due timeout_ms now p)) [
    | inl due ↦ rw (due) (scan_pending-retire_all pending (retire max now_ms i p.msg s))
    | inr early ↦ rw (early) (scan_pending-retire_all pending s)
  ]

  scan_consumers-retire_all :
      (acks : List (Text × PendingMap)) (s : Sweep)
      → (scan_consumers max timeout_ms now now_ms acks s).1 ≡ retire_all (all_pending acks) s
  unfolding retire_all scan_consumers all_pending
  scan_consumers-retire_all [] s = refl
  scan_consumers-retire_all ((key, pending) ∷ acks) s =
      scan_consumers-retire_all acks (scan_pending max timeout_ms now now_ms pending s).1
      ∙ ap (retire_all (all_pending acks)) (scan_pending-retire_all pending s)
      ∙ sym (retire_all-append pending (all_pending acks) s)

  retire_all_lem :
      (es : PendingMap) (s : Sweep)
      → ((retire_all es s).dlq ≡ s.dlq ++ given_up es)
        × ((retire_all es s).retry_queue ≡ requeue s.retry_queue (tried_again es))
  unfolding retire_all requeue is_up is_spent retire filter
  retire_all_lem [] s = (sym (append-nil s.dlq), refl)
  retire_all_lem ((i, p) ∷ es) s = elim (Bool-cases (is_due timeout_ms now p)) [
    | inr early ↦ rw (retire_all, early) (retire_all_lem es s)
    | inl due ↦ elim (Bool-cases (is_expired now_ms p.msg)) [
      | inl old ↦ rw (retire_all, due, retire, old) (retire_all_lem es s)
      | inr live ↦ elim (Bool-cases (leb max p.msg.retry_count)) [
        | inl spent ↦
            let (dead, again) = retire_all_lem es (record s { dlq = s.dlq ++ p.msg ∷ [] }) in
            rw (retire_all, due, retire, live, spent)
              (dead ∙ append_assoc s.dlq (p.msg ∷ []) (given_up es), again)
        | inr left ↦ rw (retire_all, due, retire, live, left) (retire_all_lem es _)
      ]
    ]
  ]

  pub scan_consumers-given_up :
      (acks : List (Text × PendingMap)) (s : Sweep)
      → let s' = (scan_consumers max timeout_ms now now_ms acks s).1 in
        (s'.dlq ≡ s.dlq ++ given_up (all_pending acks))
        × (s'.retry_queue ≡ requeue s.retry_queue (tried_again (all_pending acks)))
  scan_consumers-given_up acks s =
      let e = scan_consumers-retire_all acks s in
      let (dead, again) = retire_all_lem (all_pending acks) s in
      (ap (λ x. x.dlq) e ∙ dead, ap (λ x. x.retry_queue) e ∙ again)
