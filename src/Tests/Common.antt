-- ===== src/Tests/Common.antt =====
-- A producer whose message is marked.
use proto_msg_queue.Prelude.{◌≡◌, true, false, not, ◌&&◌, ◌||◌, [], ◌∷◌, leb, refl, is_empty}
use proto_msg_queue.Map.{Text, text_beq, lookup, insert, erase}
use proto_msg_queue.Common.DedupWindow.{
  DedupWindow, is_duplicate, mark_processed, mark, state_of, has_seen, remove_producer,
  is_duplicate-mark_processed,
}

abbrev fresh_window : DedupWindow
fresh_window = record { producers = []; max_producers = 8 }

abbrev producer : Text
producer = 112 ∷ 49 ∷ []

seen_then_forgotten :
    (is_duplicate producer 3 (mark_processed 0 producer 5 fresh_window) ≡ true)
    × (is_duplicate producer 6 (mark_processed 0 producer 5 fresh_window) ≡ false)
    × (is_duplicate producer 3 (remove_producer producer (mark_processed 0 producer 5 fresh_window))
        ≡ false)
unfolding is_duplicate mark_processed mark state_of has_seen remove_producer lookup insert erase
seen_then_forgotten = (refl, refl, refl)

is_duplicate-mark_processed_example :
    is_duplicate producer 3 (mark_processed 0 producer 5 fresh_window) ≡ (
      is_duplicate producer 3 fresh_window
      || (not (is_empty producer) && text_beq producer producer && leb 3 5))
is_duplicate-mark_processed_example =
    is_duplicate-mark_processed 0 producer producer 5 3 fresh_window
