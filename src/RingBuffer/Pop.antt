-- ===== src/RingBuffer/Pop.antt =====
-- `Pop` takes the oldest message out.
use native.Mathlib.Nat.{mod-mod, mod-add-mod, mod-eq_of_lt, mod-lt}
use proto_msg_queue.Prelude.{
  ℕ, ◌+◌, ◌%◌, ◌≡◌, ◌≢◌, sym, ap, ◌∙◌, none, some, List, [], ◌∷◌, length, arith, ltb, if◌then◌else◌,
  length-append, append_inj,
}
use proto_msg_queue.Bytes.{be_bytes, be_read}
use proto_msg_queue.Bytes.Words.{length-be_bytes, be_read-be_bytes}
use proto_msg_queue.Protocol.Frame.{max_payload_size}
use proto_msg_queue.RingBuffer.{SpscRingBuffer, add_size, get_bytes, pop}
use proto_msg_queue.RingBuffer.Window.{
  wrap_cases, window, get_bytes-window, length-window, window-add, window-mod,
}
use proto_msg_queue.RingBuffer.Contents.{packed, layout, cost, Represents}

-- The ring after a `Pop` of the message `m`.
unfoldable pub popped : List ℕ → SpscRingBuffer → SpscRingBuffer
popped m r = record r { head = add_size (add_size r.head 4) (length m) % r.capacity }

pub pop-empty : (r : SpscRingBuffer) → Represents r [] → pop r ≡ (none, r)
unfolding pop
pop-empty r h = ground (arith, same)
  where
    same : r.tail ≡ r.head
    same = h.tail ∙ ap (λ t. t % r.capacity) (omega arith) ∙ mod-eq_of_lt h.head_in

module _ (m : List ℕ) (ms : List (List ℕ)) {r : SpscRingBuffer} (h : Represents r (m ∷ ms)) where
  -- What the head of the ring shows: the length, and the message.
  front :
      (window r.capacity r.head 4 r.buffer ≡ be_bytes 4 (length m))
      × (window r.capacity (r.head + 4) (length m) r.buffer ≡ m)
      × (window r.capacity (r.head + 4 + length m) (cost ms) r.buffer ≡ layout ms)
  front =
      let outer =
        append_inj (window cap r.head (4 + length m) r.buffer) _ (packed m) (layout ms)
          (omega (
            arith,
            length-window cap r.head (4 + length m) r.buffer,
            length-append (be_bytes 4 (length m)) m,
            length-be_bytes 4 (length m),
          ))
          (sym (window-add cap r.head (4 + length m) (cost ms) r.buffer) ∙ h.bytes) in
      let inner =
        append_inj (window cap r.head 4 r.buffer) _ (be_bytes 4 (length m)) m
          (length-window cap r.head 4 r.buffer ∙ sym (length-be_bytes 4 (length m)))
          (sym (window-add cap r.head 4 (length m) r.buffer) ∙ outer.0) in
      (inner.0, inner.1, ap (λ p. window cap p (cost ms) r.buffer) (omega arith) ∙ outer.1)
    where
      cap : ℕ
      cap = r.capacity

  length_read : be_read 32 0 (get_bytes r.capacity r.head 0 4 r.buffer) ≡ length m
  length_read =
      ap (be_read 32 0) (
        get_bytes-window r.capacity r.head 0 4 r.buffer (omega (arith, h.bound, h.head_in))
        ∙ ap (λ p. window r.capacity p 4 r.buffer) (omega arith)
        ∙ front.0)
      ∙ be_read-be_bytes 32 4 0 (length m) (omega arith)
      ∙ omega (arith, h.size, h.bound)

  data_read : get_bytes r.capacity (add_size r.head 4) 0 (length m) r.buffer ≡ m
  data_read =
      get_bytes-window r.capacity (add_size r.head 4) 0 (length m) r.buffer
        (omega (arith, h.bound, h.head_in, h.size))
      ∙ ap (λ p. window r.capacity p (length m) r.buffer) (omega (arith, h.bound, h.head_in))
      ∙ front.1

  not_empty : r.head ≢ r.tail
  not_empty e = omega (
    arith,
    e,
    h.tail,
    wrap_cases (r.head + cost (m ∷ ms)) r.capacity (omega (arith, h.size, h.head_in)),
  )

  pub pop_front :
      pop r ≡ (if ltb max_payload_size (length m) then (none, r) else (some m, popped m r))
  unfolding pop popped
  pop_front = ground (arith, not_empty, length_read, data_read, h.lengths.0)

  pub popped-Represents : Represents (popped m r) ms
  unfolding popped
  popped-Represents = record {
    room = h.room;
    bound = h.bound;
    storage = h.storage;
    head_in = mod-lt (add_size (add_size r.head 4) (length m)) h.room;
    size = omega (arith, h.size);
    tail =
        h.tail
        ∙ ap (λ t. t % r.capacity) (omega (arith, h.bound, h.head_in, h.size))
        ∙ sym (mod-add-mod (add_size (add_size r.head 4) (length m)) r.capacity (cost ms));
    bytes =
        window-mod r.capacity _ (r.head + 4 + length m) (cost ms) r.buffer (
          mod-mod (add_size (add_size r.head 4) (length m)) r.capacity
          ∙ ap (λ t. t % r.capacity) (omega (arith, h.bound, h.head_in, h.size)))
        ∙ front.2;
    lengths = h.lengths.1;
  }
