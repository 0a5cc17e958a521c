-- ===== src/Storage/Sweep/Removal.antt =====
-- What the loops that remove pending messages leave behind.
use proto_msg_queue.Prelude.{
  ℕ, ◌≡◌, refl, ap₂, Bool, true, false, ◌||◌, List, [], ◌∷◌, All, All-weaken, arith, ◌==◌,
  if◌then◌else◌, filter, Bool-cases, inl, inr,
}
use proto_msg_queue.Map.{Text, number_eq, erase}
use proto_msg_queue.Storage.Topic.{PendingMessage, PendingMap}
use proto_msg_queue.Storage.Sweep.{erase_ids, keep_consumer}

pub filter-All {ℓ κ} :
    {A : Type ℓ} (P : A → Type κ) (f : A → Bool) (l : List A) → All P l → All P (filter f l)
unfolding filter
filter-All P f [] h = h
filter-All P f (x ∷ l) h =
    let rest = filter-All P f l h.1 in
    elim (Bool-cases (f x)) [ inl e ↦ rw (e) (h.0, rest) | inr e ↦ rw (e) rest ]

pub filter-true {ℓ} : {A : Type ℓ} (f : A → Bool) (l : List A) → All (λ x. f x ≡ true) (filter f l)
unfolding filter
filter-true f [] = tt
filter-true f (x ∷ l) =
    let rest = filter-true f l in
    elim (Bool-cases (f x)) [ inl e ↦ rw (e) (e, rest) | inr e ↦ rw (e) rest ]

pub filter_congr {ℓ} :
    {A : Type ℓ} (f g : A → Bool) (l : List A) → ((x : A) → f x ≡ g x) → filter f l ≡ filter g l
unfolding filter
filter_congr f g [] e = refl
filter_congr f g (x ∷ l) e =
    ap₂ (λ t rest. if t then x ∷ rest else rest) (e x) (filter_congr f g l e)

-- Every consumer's pending messages satisfy `P`.
unfoldable pub AllPending : (ℕ × PendingMessage → Type 0) → List (Text × PendingMap) → Type 0
AllPending P acks = All (λ c. All P c.1) acks

pub AllPending-weaken :
    (P Q : ℕ × PendingMessage → Type 0) (acks : List (Text × PendingMap))
    → ((e : ℕ × PendingMessage) → P e → Q e)
    → AllPending P acks
    → AllPending Q acks
unfolding AllPending
AllPending-weaken P Q [] f h = tt
AllPending-weaken P Q ((key, pending) ∷ acks) f h =
    (All-weaken P Q pending f h.0, AllPending-weaken P Q acks f h.1)

pub keep_consumer-AllPending :
    (P : ℕ × PendingMessage → Type 0) (key : Text) (pending : PendingMap)
    (acks : List (Text × PendingMap))
    → All P pending
    → AllPending P acks
    → AllPending P (keep_consumer key pending acks)
unfolding AllPending keep_consumer
keep_consumer-AllPending P key [] acks h rest = rest
keep_consumer-AllPending P key (p ∷ pending) acks h rest = (h, rest)

erase-All :
    (P : ℕ × PendingMessage → Type 0) (i : ℕ) (pending : PendingMap)
    → All P pending
    → All P (erase i pending)
unfolding erase
erase-All P i [] h = h
erase-All P i ((j, p) ∷ pending) h =
    let rest = erase-All P i pending h.1 in
    elim (Bool-cases (j == i)) [ inl e ↦ rw (e) rest | inr e ↦ rw (e) (h.0, rest) ]

pub erase_ids-All :
    (P : ℕ × PendingMessage → Type 0) (ids : List ℕ) (pending : PendingMap)
    → All P pending
    → All P (erase_ids ids pending)
unfolding erase_ids
erase_ids-All P [] pending h = h
erase_ids-All P (i ∷ ids) pending h =
    erase_ids-All P ids (erase i pending) (erase-All P i pending h)

unfoldable pub elem : ℕ → List ℕ → Bool
elem i [] = false
elem i (j ∷ ids) = (i == j) || elem i ids

-- An entry may stay, or its number is among those to remove.
unfoldable pub IsSortedOut : (PendingMessage → Bool) → List ℕ → ℕ × PendingMessage → Type 0
IsSortedOut stays ids e = (stays e.1 || elem e.0 ids) ≡ true

pub IsSortedOut-more :
    (stays : PendingMessage → Bool) (i : ℕ) (ids : List ℕ) (pending : PendingMap)
    → All (IsSortedOut stays ids) pending
    → All (IsSortedOut stays (i ∷ ids)) pending
unfolding IsSortedOut elem
IsSortedOut-more stays i ids pending h =
    All-weaken (IsSortedOut stays ids) (IsSortedOut stays (i ∷ ids)) pending
      (λ e g. ground (arith, g)) h

erase_sorted :
    (stays : PendingMessage → Bool) (i : ℕ) (ids : List ℕ) (pending : PendingMap)
    → All (IsSortedOut stays (i ∷ ids)) pending
    → All (IsSortedOut stays ids) (erase i pending)
unfolding IsSortedOut elem erase
erase_sorted stays i ids [] h = tt
erase_sorted stays i ids ((j, p) ∷ pending) h =
    let rest = erase_sorted stays i ids pending h.1 in
    elim (Bool-cases (j == i)) [ inl e ↦ rw (e) rest | inr e ↦ rw (e) (ground (arith, h.0), rest) ]

-- Once they are removed, only entries that may stay are left.
pub erase_ids_stays :
    (stays : PendingMessage → Bool) (ids : List ℕ) (pending : PendingMap)
    → All (IsSortedOut stays ids) pending
    → All (λ e. stays e.1 ≡ true) (erase_ids ids pending)
unfolding IsSortedOut elem erase_ids
erase_ids_stays stays [] pending h =
    All-weaken (IsSortedOut stays []) (λ e. stays e.1 ≡ true) pending (λ e g. ground (arith, g)) h
erase_ids_stays stays (i ∷ ids) pending h =
    erase_ids_stays stays ids (erase i pending) (erase_sorted stays i ids pending h)
