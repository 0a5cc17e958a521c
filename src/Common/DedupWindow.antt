-- ===== src/Common/DedupWindow.antt =====
-- src/common/dedup_window.cpp: the highest sequence number seen of each producer. `now` is a reading
-- of the steady clock.
use proto_msg_queue.Prelude.{
  is_empty, ℕ, ◌-◌, ◌≡◌, refl, ap, ◌∙◌, Bool, false, not, ◌&&◌, ◌||◌, Option, none, some, List, [],
  ◌∷◌, map, length, take, arith, ltb, leb, if◌then◌else◌, Bool-cases, inl, inr,
}
use proto_msg_queue.Map.{
  Text, text_beq, text_beq_iff, text_eq, lookup, insert, erase, lookup-insert,
}

-- `struct ProducerState`
pub record ProducerState : Type 0 where
  pub max_sequence : ℕ
  pub last_active : ℕ

-- `class DedupWindow`
pub record DedupWindow : Type 0 where
  pub producers : List (Text × ProducerState)
  pub max_producers : ℕ

unfoldable pub has_seen : ℕ → Option ProducerState → Bool
has_seen sequence_id none = false
has_seen sequence_id (some s) = leb sequence_id s.max_sequence

-- `IsDuplicate`
unfoldable pub is_duplicate : Text → ℕ → DedupWindow → Bool
is_duplicate producer_id sequence_id w =
    if is_empty producer_id then false else has_seen sequence_id (lookup producer_id w.producers)

-- The state that `producers_[producer_id]` gives: a new one has seen nothing.
unfoldable pub state_of : Option ProducerState → ProducerState
state_of none = record { max_sequence = 0; last_active = 0 }
state_of (some s) = s

-- What `MarkProcessed` makes of a producer's state.
unfoldable pub mark : ℕ → ℕ → ProducerState → ProducerState
mark now sequence_id state = record {
  max_sequence = if ltb state.max_sequence sequence_id then sequence_id else state.max_sequence;
  last_active = now;
}

-- `MarkProcessed`
unfoldable pub mark_processed : ℕ → Text → ℕ → DedupWindow → DedupWindow
mark_processed now producer_id sequence_id w = if is_empty producer_id then w else (record w {
  producers =
      insert producer_id (mark now sequence_id (state_of (lookup producer_id w.producers)))
        w.producers;
})

-- `RemoveProducer`
unfoldable pub remove_producer : Text → DedupWindow → DedupWindow
remove_producer producer_id w = record w { producers = erase producer_id w.producers }

-- `erase` for each of a list of names.
unfoldable pub erase_producers :
    List (Text × ℕ) → List (Text × ProducerState) → List (Text × ProducerState)
erase_producers [] producers = producers
erase_producers ((id, t) ∷ rest) producers = erase_producers rest (erase id producers)

-- `CleanupInactive`; `sort` is `std::sort` by the time.
unfoldable pub cleanup_inactive :
    (List (Text × ℕ) → List (Text × ℕ)) → ℕ → DedupWindow → DedupWindow
cleanup_inactive sort max_inactive w =
    if leb (length w.producers) max_inactive
    then w
    else let sorted = sort (map (λ e. (e.0, e.1.last_active)) w.producers) in
      record w {
        producers = erase_producers (take (length w.producers - max_inactive) sorted) w.producers;
      }

has_seen-mark :
    (now n s : ℕ) (o : Option ProducerState)
    → has_seen s (some (mark now n (state_of o))) ≡ (has_seen s o || leb s n)
unfolding has_seen mark state_of
has_seen-mark now n s none = ground arith
has_seen-mark now n s (some st) = ground arith

-- After `MarkProcessed` a message counts as a duplicate if it did before, or if it has this producer,
-- which is to have a name, and a sequence number up to this one; and no other does.
pub is_duplicate-mark_processed :
    (now : ℕ) (p q : Text) (n s : ℕ) (w : DedupWindow)
    → is_duplicate q s (mark_processed now p n w)
      ≡ (is_duplicate q s w || (not (is_empty p) && text_beq p q && leb s n))
unfolding is_duplicate mark_processed
is_duplicate-mark_processed now p q n s w = elim (Bool-cases (is_empty p)) [
  | inl anonymous ↦
      let e : mark_processed now p n w ≡ w = rw (mark_processed, anonymous) refl in
      ap (is_duplicate q s) e ∙ ground (arith, anonymous)
  | inr named ↦
      let st : ProducerState = mark now n (state_of (lookup p w.producers)) in
      let e : (mark_processed now p n w).producers ≡ insert p st w.producers =
        rw (mark_processed, named) refl in
      let found = ap (lookup q) e ∙ lookup-insert p q st w.producers in
      elim (Bool-cases (text_beq p q)) [
        | inl same ↦
            let key : p ≡ q = (text_beq_iff p q).0 same in
            let at : lookup q (mark_processed now p n w).producers ≡ some st =
              found ∙ rw (same) refl in
            let before = ap (λ k. lookup k w.producers) key in
            ground (
              arith,
              ap (has_seen s) at,
              has_seen-mark now n s (lookup p w.producers),
              same,
              ap (has_seen s) before,
              ap is_empty key,
              named,
            )
        | inr other ↦
            let at : lookup q (mark_processed now p n w).producers ≡ lookup q w.producers =
              found ∙ rw (other) refl in
            ground (arith, ap (has_seen s) at, other)
      ]
]
