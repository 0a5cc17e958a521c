-- ===== src/RingBuffer/Contents.antt =====
-- The ring as the queue of the messages that it holds.
use proto_msg_queue.Prelude.{
  ℕ, ◌+◌, ◌-◌, ◌%◌, ◌^◌, ◌≤◌, ◌<◌, ◌≡◌, refl, sym, ap, ◌∙◌, List, [], ◌∷◌, ◌++◌, length, arith,
  append_assoc, append-nil, All, length-replicate, ◌⊎◌,
}
use proto_msg_queue.Bytes.{be_bytes}
use proto_msg_queue.RingBuffer.{SpscRingBuffer, add_size, sub_size, make}
use proto_msg_queue.RingBuffer.Window.{wrap_cases, window}

-- A message as it lies in the ring.
abbrev pub packed : List ℕ → List ℕ
packed m = be_bytes 4 (length m) ++ m

abbrev pub layout : List (List ℕ) → List ℕ
layout [] = []
layout (m ∷ ms) = packed m ++ layout ms

-- The bytes that a queue of messages takes.
abbrev pub cost : List (List ℕ) → ℕ
cost [] = 0
cost (m ∷ ms) = 4 + length m + cost ms

-- The ring `r` holds the messages `ms`, oldest first. The bound on the capacity keeps every length
-- within its four bytes.
pub record Represents (r : SpscRingBuffer) (ms : List (List ℕ)) : Type 0 where
  pub room : 0 < r.capacity
  pub bound : r.capacity ≤ 2 ^ 32
  pub storage : length r.buffer ≡ r.capacity
  pub head_in : r.head < r.capacity
  pub size : cost ms < r.capacity
  pub tail : r.tail ≡ (r.head + cost ms) % r.capacity
  pub bytes : window r.capacity r.head (cost ms) r.buffer ≡ layout ms
  pub lengths : All (λ m. 0 < length m) ms

-- What `Push` computes as the space left, and `Size` as the space taken.
pub writable_lem :
    (cap head used : ℕ)
    → cap ≤ 2 ^ 32
    → head < cap
    → used < cap
    → sub_size (sub_size (add_size head cap) ((head + used) % cap)) 1 % cap ≡ cap - 1 - used
writable_lem cap head used b h u = ap (λ t. t % cap) plain ∙ reduced
  where
    at : ℕ
    at = (head + used) % cap

    tail_cases :
        ((head + used < cap) × (at ≡ head + used))
        ⊎ ((cap ≤ head + used) × (at ≡ head + used - cap))
    tail_cases = wrap_cases (head + used) cap (omega arith)

    plain : sub_size (sub_size (add_size head cap) at) 1 ≡ head + cap - at - 1
    plain = omega (arith, tail_cases)

    reduced : (head + cap - at - 1) % cap ≡ cap - 1 - used
    reduced =
        omega (arith, tail_cases, wrap_cases (head + cap - at - 1) cap (omega (arith, tail_cases)))

pub readable_lem :
    (cap head used : ℕ)
    → cap ≤ 2 ^ 32
    → head < cap
    → used < cap
    → sub_size (add_size ((head + used) % cap) cap) head % cap ≡ used
readable_lem cap head used b h u = ap (λ t. t % cap) plain ∙ reduced
  where
    at : ℕ
    at = (head + used) % cap

    tail_cases :
        ((head + used < cap) × (at ≡ head + used))
        ⊎ ((cap ≤ head + used) × (at ≡ head + used - cap))
    tail_cases = wrap_cases (head + used) cap (omega arith)

    plain : sub_size (add_size at cap) head ≡ at + cap - head
    plain = omega (arith, tail_cases)

    reduced : (at + cap - head) % cap ≡ used
    reduced =
        omega (arith, tail_cases, wrap_cases (at + cap - head) cap (omega (arith, tail_cases)))

-- A fresh ring is empty, and holds what it was made for.
pub make-Represents : (n : ℕ) → n < 2 ^ 32 → Represents (make n) [] × ((make n).capacity ≡ n + 1)
unfolding make
make-Represents n h = (
  record {
    room = omega arith;
    bound = omega arith;
    storage = length-replicate (add_size n 1) 0;
    head_in = omega arith;
    size = omega arith;
    tail = omega arith;
    bytes = refl;
    lengths = tt;
  },
  omega arith,
)

pub cost-append : (ms : List (List ℕ)) (m : List ℕ) → cost (ms ++ m ∷ []) ≡ cost ms + (4 + length m)
cost-append [] m = omega arith
cost-append (x ∷ ms) m = omega (arith, cost-append ms m)

pub layout-append :
    (ms : List (List ℕ)) (m : List ℕ) → layout (ms ++ m ∷ []) ≡ layout ms ++ packed m
layout-append [] m = append-nil (packed m)
layout-append (x ∷ ms) m =
    ap (◌++◌ (packed x)) (layout-append ms m) ∙ sym (append_assoc (packed x) (layout ms) (packed m))
