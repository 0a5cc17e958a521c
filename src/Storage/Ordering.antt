-- ===== src/Storage/Ordering.antt =====
-- What the loop of `Pull` over the log gathers, where the log is in the order of its numbers.
use proto_msg_queue.Prelude.{
  is_some, ℕ, zero, suc, ◌+◌, ◌-◌, ◌≤◌, ◌<◌, ◌^◌, ◌%◌, ◌≡◌, refl, sym, ap, ap₂, ◌∙◌, Bool, false,
  not, ◌&&◌, ◌||◌, List, [], ◌∷◌, ◌++◌, length, take, arith, ltb, leb, ◌==◌, if◌then◌else◌, filter,
  Bool-cases, ◌⊎◌, inl, inr, append_assoc, length-append, append-nil,
}
use proto_msg_queue.Map.{
  Text, number_eq, text_eq, lookup, insert, lookup-insert, lookup-insert_self,
}
use proto_msg_queue.Storage.Message.{StoredMessage, is_expired}
use proto_msg_queue.Storage.Topic.{
  PendingMap, Pulling, pending_of, is_pending, or_empty, assign, touch, pull_one, pull_log,
}

-- The numbers rise from `b` on, and none is the last of its type.
unfoldable pub IsAscending : ℕ → List StoredMessage → Type 0
IsAscending b [] = Unit
IsAscending b (m ∷ log) = (b ≤ m.id) × (m.id + 1 < 2 ^ 64) × IsAscending (m.id + 1) log

-- The messages of the log that a consumer is to have.
unfoldable pub wanted : ℕ → ℕ → Text → List (Text × PendingMap) → StoredMessage → Bool
wanted offset now_ms key acks m =
    leb offset m.id && not (is_expired now_ms m) && not (is_pending key m.id acks)

pub filter_agree :
    (b : ℕ) (log : List StoredMessage) (f g : StoredMessage → Bool)
    → IsAscending b log
    → ((m : StoredMessage) → b ≤ m.id → f m ≡ g m)
    → filter f log ≡ filter g log
unfolding filter IsAscending
filter_agree b [] f g h e = refl
filter_agree b (m ∷ log) f g h e =
    let same = filter_agree (m.id + 1) log f g h.2 (λ x le. e x (omega (arith, h.0, le))) in
    ap₂ (λ t rest. if t then m ∷ rest else rest) (e m h.0) same

pub pending_of-insert :
    (key : Text) (v : PendingMap) (acks : List (Text × PendingMap))
    → pending_of key (insert key v acks) ≡ v
unfolding pending_of or_empty
pending_of-insert key v acks = ap or_empty (lookup-insert_self key v acks)

pub is_pending-assign :
    (clock : ℕ → ℕ) (key : Text) (m : StoredMessage) (p : Pulling) (i : ℕ)
    → is_pending key i (assign clock key m p).pending_acks
      ≡ ((m.id == i) || is_pending key i p.pending_acks)
unfolding is_pending assign
is_pending-assign clock key m p i =
    ap (λ l. is_some (lookup i l)) (pending_of-insert key _ p.pending_acks)
    ∙ ap is_some (lookup-insert m.id i _ (pending_of key p.pending_acks))
    ∙ ground arith

pub is_pending-touch :
    (key : Text) (p : Pulling) (i : ℕ)
    → is_pending key i (touch key p).pending_acks ≡ is_pending key i p.pending_acks
unfolding is_pending touch
is_pending-touch key p i = ap (λ l. is_some (lookup i l)) (pending_of-insert key _ p.pending_acks)

-- One message is gathered exactly if it is wanted, and those behind it stay wanted or not.
pub pull_one_result :
    (now_ms : ℕ) (clock : ℕ → ℕ) (key : Text) (m : StoredMessage) (p : Pulling)
    → (pull_one now_ms clock key m p).result
      ≡ (if wanted p.offset now_ms key p.pending_acks m then p.result ++ m ∷ [] else p.result)
unfolding pull_one wanted assign touch
pull_one_result now_ms clock key m p = ground arith

-- The four ways of `pull_one`.
pull_one_cases :
    (now_ms : ℕ) (clock : ℕ → ℕ) (key : Text) (m : StoredMessage) (p : Pulling)
    → (pull_one now_ms clock key m p ≡ p)
      ⊎ (ltb m.id p.offset ≡ false)
        × ((pull_one now_ms clock key m p ≡ record p { offset = (m.id + 1) % 2 ^ 64 })
            ⊎ (pull_one now_ms clock key m p ≡ touch key p)
            ⊎ (pull_one now_ms clock key m p
                ≡ record (assign clock key m p) { offset = (m.id + 1) % 2 ^ 64 }))
unfolding pull_one
pull_one_cases now_ms clock key m p = elim (Bool-cases (ltb m.id p.offset)) [
  | inl before ↦ inl (rw (pull_one, before) refl)
  | inr from ↦ inr (
    from,
    elim (Bool-cases (is_expired now_ms m)) [
      | inl old ↦ inl (rw (pull_one, from, old) refl)
      | inr live ↦ elim (Bool-cases (is_pending key m.id p.pending_acks)) [
        | inl known ↦ inr (inl (rw (pull_one, from, live, known) refl))
        | inr new ↦ inr (inr (rw (pull_one, from, live, new) refl))
      ]
    ],
  )
]

pub pull_one-wanted :
    (now_ms : ℕ) (clock : ℕ → ℕ) (key : Text) (m x : StoredMessage) (p : Pulling)
    → m.id + 1 < 2 ^ 64
    → m.id < x.id
    → (let p' = pull_one now_ms clock key m p in
        wanted p'.offset now_ms key p'.pending_acks x ≡ wanted p.offset now_ms key p.pending_acks x)
unfolding wanted touch
pull_one-wanted now_ms clock key m x p small after = elim (pull_one_cases now_ms clock key m p) [
  | inl e ↦ rw (e) refl
  | inr (from, inl e) ↦ rw (e) (ground arith)
  | inr (from, inr (inl e)) ↦ rw (e) (ground (arith, is_pending-touch key p x.id))
  | inr (from, inr (inr e)) ↦ rw (e) (ground (arith, is_pending-assign clock key m p x.id))
]

take-nil : (n : ℕ) → take {A = StoredMessage} n [] ≡ []
take-nil zero = refl
take-nil (suc n) = refl

-- A gathered message takes one place of those left.
take_grow :
    (n : ℕ) (gathered rest : List StoredMessage) (m : StoredMessage)
    → length gathered < n
    → (gathered ++ m ∷ []) ++ take (n - length (gathered ++ m ∷ [])) rest
      ≡ gathered ++ take (n - length gathered) (m ∷ rest)
take_grow n gathered rest m less =
    let room : suc (n - length gathered - 1) ≡ n - length gathered = omega arith in
    append_assoc gathered (m ∷ []) (take (n - length (gathered ++ m ∷ [])) rest)
    ∙ ap (λ k. gathered ++ m ∷ take k rest) (omega (arith, length-append gathered (m ∷ [])))
    ∙ ap (λ k. gathered ++ take k (m ∷ rest)) room

-- Over a log in order, the loop gathers what the consumer wants, oldest first, up to the limit.
pub pull_log_gathers :
    (max_messages now_ms : ℕ) (clock : ℕ → ℕ) (key : Text) (b : ℕ) (log : List StoredMessage)
    (p : Pulling)
    → IsAscending b log
    → (pull_log max_messages now_ms clock key log p).result
      ≡ p.result
        ++ take
            (max_messages - length p.result)
            (filter (wanted p.offset now_ms key p.pending_acks) log)
unfolding pull_log filter IsAscending
pull_log_gathers max now_ms clock key b [] p h =
    sym (append-nil p.result) ∙ ap (λ l. p.result ++ l) (sym (take-nil (max - length p.result)))
pull_log_gathers max now_ms clock key b (m ∷ log) p h =
    let p' : Pulling = pull_one now_ms clock key m p in
    let same : filter (wanted p'.offset now_ms key p'.pending_acks) log
        ≡ filter (wanted p.offset now_ms key p.pending_acks) log =
      filter_agree (m.id + 1) log _ _ h.2
        (λ x after. pull_one-wanted now_ms clock key m x p h.1 (omega arith)) in
    let ih =
      pull_log_gathers max now_ms clock key (m.id + 1) log p' h.2
      ∙ ap (λ l. p'.result ++ take (max - length p'.result) l) same in
    elim (Bool-cases (leb max (length p.result))) [
      | inl done ↦
          let stop : pull_log max now_ms clock key (m ∷ log) p ≡ p = rw (pull_log, done) refl in
          let none_left : 0 ≡ max - length p.result = ground arith in
          ap (λ x. x.result) stop
          ∙ sym (append-nil p.result)
          ∙ ap
              (λ k.
                p.result ++ take k (filter (wanted p.offset now_ms key p.pending_acks) (m ∷ log)))
              none_left
      | inr more ↦
          let go : pull_log max now_ms clock key (m ∷ log) p
              ≡ pull_log max now_ms clock key log p' =
            rw (pull_log, more) refl in
          let got = pull_one_result now_ms clock key m p in
          ap (λ x. x.result) go
          ∙ ih
          ∙ elim (Bool-cases (wanted p.offset now_ms key p.pending_acks m)) [
            | inl w ↦
                rw (got, w)
                  (take_grow max p.result (filter (wanted p.offset now_ms key p.pending_acks) log) m
                    (ground arith))
            | inr w ↦ rw (got, w) refl
          ]
    ]
