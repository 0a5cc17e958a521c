-- ===== src/Network/TcpClient/Sequence.antt =====
-- The sequence numbers of src/network/tcp_client.cpp against the window of
-- src/common/dedup_window.cpp.
use proto_msg_queue.Prelude.{ℕ, zero, suc, ◌+◌, ◌^◌, ◌≡◌, ◌≤◌, ◌<◌, false, arith}
use proto_msg_queue.Common.DedupWindow.{
  DedupWindow, is_duplicate, mark_processed, is_duplicate-mark_processed,
}
use proto_msg_queue.Network.TcpClient.{TcpClient, get_next_sequence_id}

-- A client takes a number for each of so many messages, and the broker marks each at a time.
unfoldable pub publish_run : (ℕ → ℕ) → ℕ → TcpClient → DedupWindow → TcpClient × DedupWindow
publish_run now zero c w = (c, w)
publish_run now (suc n) c w =
    let (id, c') = get_next_sequence_id c in
    publish_run now n c' (mark_processed (now n) c.producer_id id w)

-- Numbers that are still to come count as new.
abbrev IsAhead : TcpClient → DedupWindow → Type 0
IsAhead c w = (s : ℕ) → c.next_sequence_id ≤ s → is_duplicate c.producer_id s w ≡ false

mark-IsAhead :
    (now : ℕ) (c : TcpClient) (w : DedupWindow)
    → c.next_sequence_id + 1 < 2 ^ 64
    → IsAhead c w
    → IsAhead
        (get_next_sequence_id c).1
        (mark_processed now c.producer_id (get_next_sequence_id c).0 w)
unfolding get_next_sequence_id
mark-IsAhead now c w small ahead s h = ground (
  arith,
  is_duplicate-mark_processed now c.producer_id c.producer_id c.next_sequence_id s w,
  ahead s,
)

-- If the window has nothing of a client's numbers from its next one on, then after the client took
-- numbers for any messages, below 2 ^ 64, and the broker marked them in turn, the client's next
-- number is still not a duplicate.
pub publish_run_fresh :
    (now : ℕ → ℕ) (n : ℕ) (c : TcpClient) (w : DedupWindow)
    → c.next_sequence_id + n < 2 ^ 64
    → ((s : ℕ) → c.next_sequence_id ≤ s → is_duplicate c.producer_id s w ≡ false)
    → is_duplicate
        (publish_run now n c w).0.producer_id
        (publish_run now n c w).0.next_sequence_id
        (publish_run now n c w).1
      ≡ false
unfolding publish_run get_next_sequence_id
publish_run_fresh now zero c w small ahead = ahead c.next_sequence_id (omega arith)
publish_run_fresh now (suc n) c w small ahead =
    publish_run_fresh now n (get_next_sequence_id c).1 _ (omega arith)
      (mark-IsAhead (now n) c w (omega arith) ahead)
