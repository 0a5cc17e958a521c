-- ===== src/RingBuffer/Push.antt =====
-- `Push` adds a message behind those that the ring holds.
use native.Mathlib.Nat.{mod-add-mod, mod-lt}
use proto_msg_queue.Prelude.{
  ℕ, ◌+◌, ◌-◌, ◌%◌, ◌^◌, ◌<◌, ◌≡◌, sym, ap, ap₂, ◌∙◌, true, false, ◌&&◌, List, [], ◌∷◌, ◌++◌,
  length, arith, ltb, if◌then◌else◌, length-append, All-append,
}
use proto_msg_queue.Bytes.{be_bytes}
use proto_msg_queue.Bytes.Words.{length-be_bytes}
use proto_msg_queue.RingBuffer.{SpscRingBuffer, add_size, sub_size, put_bytes, push}
use proto_msg_queue.RingBuffer.Window.{
  window, write, put_bytes-write, length-write, window-add, write-mod, write-append,
  window-write_other, window-write_self,
}
use proto_msg_queue.RingBuffer.Contents.{
  packed, cost, Represents, writable_lem, cost-append, layout-append,
}

-- The ring after an accepted `Push`.
unfoldable pub pushed : List ℕ → SpscRingBuffer → SpscRingBuffer
pushed m r = record r {
  buffer =
      put_bytes r.capacity (add_size r.tail 4) 0 m
        (put_bytes r.capacity r.tail 0 (be_bytes 4 (length m % 2 ^ 32)) r.buffer);
  tail = add_size r.tail (add_size 4 (length m)) % r.capacity;
}

-- Positions counted from the tail are those counted from the head, past what the ring holds.
module _ {r : SpscRingBuffer} {ms : List (List ℕ)} (h : Represents r ms) where
  pub tail_shift : (k : ℕ) → (r.tail + k) % r.capacity ≡ (r.head + cost ms + k) % r.capacity
  tail_shift k = ap (λ t. (t + k) % r.capacity) h.tail ∙ mod-add-mod (r.head + cost ms) r.capacity k

  pub tail_in : r.tail < r.capacity
  tail_in = rw h.tail (mod-lt (r.head + cost ms) h.room)

module _ (m : List ℕ) {r : SpscRingBuffer} {ms : List (List ℕ)} (h : Represents r ms) where
  -- `Push` takes a message exactly if it is not empty and leaves a place free behind it.
  pub push_decides : push m r ≡ (
      if ltb 0 (length m) && ltb (cost ms + (4 + length m)) r.capacity
      then (true, pushed m r)
      else (false, r))
  unfolding push pushed
  push_decides = ground (arith, space, h.size, h.bound)
    where
      space :
          sub_size (sub_size (add_size r.head r.capacity) r.tail) 1 % r.capacity
          ≡ r.capacity - 1 - cost ms
      space =
          ap (λ t. sub_size (sub_size (add_size r.head r.capacity) t) 1 % r.capacity) h.tail
          ∙ writable_lem r.capacity r.head (cost ms) h.bound h.head_in h.size

  length-packed : length (packed m) ≡ 4 + length m
  length-packed =
      omega (arith, length-append (be_bytes 4 (length m)) m, length-be_bytes 4 (length m))

  -- The two loops of `Push` are one write of the packed message, behind what the ring holds.
  pushed-write :
      cost ms + (4 + length m) < r.capacity
      → (pushed m r).buffer ≡ write r.capacity (r.head + cost ms) (packed m) r.buffer
  unfolding pushed
  pushed-write fits =
      ap
        (λ l.
          put_bytes cap (add_size r.tail 4) 0 m (put_bytes cap r.tail 0 (be_bytes 4 l) r.buffer))
        (omega (arith, fits, h.bound))
      ∙ put_bytes-write cap (add_size r.tail 4) 0 m _ (omega (arith, fits, h.bound, tail_in h))
      ∙ ap (write cap (add_size r.tail 4 + 0) m) (
          put_bytes-write cap r.tail 0 header r.buffer
            (omega (arith, header_size, h.bound, tail_in h)))
      ∙ write-mod cap (add_size r.tail 4 + 0) (r.head + cost ms + length header) m _ second
      ∙ ap (write cap (r.head + cost ms + length header) m)
          (write-mod cap (r.tail + 0) (r.head + cost ms) header r.buffer first)
      ∙ sym (write-append cap (r.head + cost ms) header m r.buffer)
    where
      cap : ℕ
      cap = r.capacity

      header : List ℕ
      header = be_bytes 4 (length m)

      header_size : length header ≡ 4
      header_size = length-be_bytes 4 (length m)

      second : (add_size r.tail 4 + 0) % cap ≡ (r.head + cost ms + length header) % cap
      second =
          ap (λ t. t % cap) (omega (arith, tail_in h, h.bound))
          ∙ tail_shift h 4
          ∙ ap (λ k. (r.head + cost ms + k) % cap) (sym header_size)

      first : (r.tail + 0) % cap ≡ (r.head + cost ms) % cap
      first = tail_shift h 0 ∙ ap (λ t. t % cap) (omega arith)

  pub pushed-Represents :
      0 < length m → cost ms + (4 + length m) < r.capacity → Represents (pushed m r) (ms ++ m ∷ [])
  unfolding pushed
  pushed-Represents pos fits = record {
    room = h.room;
    bound = h.bound;
    storage =
        ap length (pushed-write fits)
        ∙ length-write r.capacity (r.head + cost ms) (packed m) r.buffer
        ∙ h.storage;
    head_in = h.head_in;
    size = omega (arith, cost-append ms m, fits);
    tail =
        ap (λ t. t % r.capacity) (omega (arith, tail_in h, h.bound, fits))
        ∙ tail_shift h (4 + length m)
        ∙ ap (λ t. t % r.capacity) (omega (arith, cost-append ms m));
    bytes =
        ap₂ (λ n b. window r.capacity r.head n b) (cost-append ms m) (pushed-write fits)
        ∙ window-add r.capacity r.head (cost ms) (4 + length m) after
        ∙ ap₂ ◌++◌
            (window-write_other r.capacity r.head (cost ms) (r.head + cost ms) (packed m) r.buffer
                (omega arith) (omega (arith, length-packed, fits))
              ∙ h.bytes)
            (ap (λ n. window r.capacity (r.head + cost ms) n after) (sym length-packed)
              ∙ window-write_self r.capacity (r.head + cost ms) (packed m) r.buffer h.room
                  (omega (arith, h.storage)) (omega (arith, length-packed, fits)))
        ∙ sym (layout-append ms m);
    lengths = All-append (λ m. 0 < length m) ms (m ∷ []) h.lengths (pos, tt);
  }
    where
      after : List ℕ
      after = write r.capacity (r.head + cost ms) (packed m) r.buffer
