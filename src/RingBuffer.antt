-- ===== src/RingBuffer.antt =====
-- src/ring_buffer/spsc_ring_buffer.cpp: a ring of bytes that holds messages, each behind its length.
-- A method that changes the ring returns its result and the new ring; `size_t` wraps at 2 ^ 64.
pub mod Window
pub mod Contents
pub mod Push
pub mod Pop
pub mod Queue
use proto_msg_queue.Prelude.{
  ℕ, zero, suc, ◌+◌, ◌-◌, ◌%◌, ◌^◌, Bool, true, false, ◌||◌, Option, none, some, List, [], ◌∷◌,
  length, get_or, set, replicate, ltb, ◌==◌, if◌then◌else◌,
}
use proto_msg_queue.Bytes.{be_bytes, be_read}
use proto_msg_queue.Protocol.Frame.{max_payload_size}

abbrev pub add_size : ℕ → ℕ → ℕ
add_size a b = (a + b) % 2 ^ 64

abbrev pub sub_size : ℕ → ℕ → ℕ
sub_size a b = (a + 2 ^ 64 - b) % 2 ^ 64

-- `class SpscRingBuffer`
pub record SpscRingBuffer : Type 0 where
  pub capacity : ℕ
  pub buffer : List ℕ
  pub head : ℕ
  pub tail : ℕ

-- The constructor: one place more than asked for tells a full ring from an empty one.
unfoldable pub make : ℕ → SpscRingBuffer
make capacity = record {
  capacity = add_size capacity 1;
  buffer = replicate (add_size capacity 1) 0;
  head = 0;
  tail = 0;
}

-- `buffer_[(base + i) % capacity_]` for `i` from `i` on, written with the bytes in turn.
unfoldable pub put_bytes : ℕ → ℕ → ℕ → List ℕ → List ℕ → List ℕ
put_bytes cap base i [] buffer = buffer
put_bytes cap base i (b ∷ bs) buffer =
    put_bytes cap base (i + 1) bs (set buffer (add_size base i % cap) b)

-- The same places read, `n` of them.
unfoldable pub get_bytes : ℕ → ℕ → ℕ → ℕ → List ℕ → List ℕ
get_bytes cap base i zero buffer = []
get_bytes cap base i (suc n) buffer =
    get_or buffer (add_size base i % cap) 0 ∷ get_bytes cap base (i + 1) n buffer

-- `GetReadableSize`, which is also `Size`
unfoldable pub get_readable_size : SpscRingBuffer → ℕ
get_readable_size r = sub_size (add_size r.tail r.capacity) r.head % r.capacity

-- `GetWritableSize`
unfoldable pub get_writable_size : SpscRingBuffer → ℕ
get_writable_size r = sub_size (sub_size (add_size r.head r.capacity) r.tail) 1 % r.capacity

-- `Empty`
unfoldable pub empty : SpscRingBuffer → Bool
empty r = r.head == r.tail

-- `Full`
unfoldable pub full : SpscRingBuffer → Bool
full r = (add_size r.tail 1 % r.capacity) == r.head

-- `Push`: the test of the length, the test of the space, the length in four bytes, the data.
unfoldable pub push : List ℕ → SpscRingBuffer → Bool × SpscRingBuffer
push bytes r =
    let len : ℕ = length bytes in
    if len == 0 || ltb (sub_size r.capacity 1) len
    then (false, r)
    else let total_len = add_size 4 len in
      let writable = sub_size (sub_size (add_size r.head r.capacity) r.tail) 1 % r.capacity in
      if ltb writable total_len
      then (false, r)
      else let len_be = len % 2 ^ 32 in
        let with_length = put_bytes r.capacity r.tail 0 (be_bytes 4 len_be) r.buffer in
        (
          true,
          record r {
            buffer = put_bytes r.capacity (add_size r.tail 4) 0 bytes with_length;
            tail = add_size r.tail total_len % r.capacity;
          },
        )

-- `Pop`
unfoldable pub pop : SpscRingBuffer → Option (List ℕ) × SpscRingBuffer
pop r =
    if r.head == r.tail
    then (none, r)
    else let len = be_read 32 0 (get_bytes r.capacity r.head 0 4 r.buffer) in
      if len == 0 || ltb max_payload_size len then (none, r) else (
        some (get_bytes r.capacity (add_size r.head 4) 0 len r.buffer),
        record r { head = add_size (add_size r.head 4) len % r.capacity },
      )
