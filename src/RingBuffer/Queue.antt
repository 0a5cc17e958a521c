-- ===== src/RingBuffer/Queue.antt =====
-- What the ring promises: a queue of messages whose packed bytes stay below the capacity.
use proto_msg_queue.Prelude.{
  ℕ, ◌+◌, ◌-◌, ◌≤◌, ◌<◌, ◌^◌, ◌≡◌, refl, sym, ap, ap₂, ◌∙◌, subst, append_assoc, if_keeps, ◌%◌,
  Bool, true, false, ◌&&◌, Option, none, some, List, [], ◌∷◌, ◌++◌, length, arith, ltb, ◌==◌,
  if◌then◌else◌, Bool-cases, ◌⊎◌, inl, inr,
}
use proto_msg_queue.Protocol.Frame.{max_payload_size}
use proto_msg_queue.RingBuffer.{
  SpscRingBuffer, make, push, pop, empty, full, get_readable_size, get_writable_size, add_size,
  sub_size,
}
use proto_msg_queue.RingBuffer.Window.{wrap_cases}
use proto_msg_queue.RingBuffer.Contents.{
  cost, Represents, writable_lem, readable_lem, make-Represents,
}
use proto_msg_queue.RingBuffer.Push.{tail_shift, tail_in, pushed, push_decides, pushed-Represents}
use proto_msg_queue.RingBuffer.Pop.{popped, pop-empty, pop_front, popped-Represents}

abbrev pub Queue : Type 0
Queue = List (List ℕ)

-- A message is taken if it is not empty and a place stays free behind it.
unfoldable pub enqueue : ℕ → List ℕ → Queue → Bool × Queue
enqueue cap m q =
    if ltb 0 (length m) && ltb (cost q + (4 + length m)) cap
    then (true, q ++ m ∷ [])
    else (false, q)

-- The oldest message comes out; one that is over the limit stays.
unfoldable pub dequeue : Queue → Option (List ℕ) × Queue
dequeue [] = (none, [])
dequeue (m ∷ q) = if ltb max_payload_size (length m) then (none, m ∷ q) else (some m, q)

-- `Push` on a ring that holds a queue answers as the queue does; the ring then holds what the queue
-- holds, and its capacity stays.
pub push_refines :
    (m : List ℕ) (r : SpscRingBuffer) (q : Queue)
    → Represents r q
    → ((push m r).0 ≡ (enqueue r.capacity m q).0)
      × Represents (push m r).1 (enqueue r.capacity m q).1
      × ((push m r).1.capacity ≡ r.capacity)
unfolding enqueue pushed
push_refines m r q h =
    elim (Bool-cases (ltb 0 (length m) && ltb (cost q + (4 + length m)) r.capacity)) [
      | inl fits ↦
          let e : push m r ≡ (true, pushed m r) = rw (push_decides m h, fits) in
          rw (fits, e) (refl, pushed-Represents m h (ground arith) (ground arith), refl)
      | inr full ↦
          let e : push m r ≡ (false, r) = rw (push_decides m h, full) in
          rw (full, e) (refl, h, refl)
    ]

-- `Pop` on a ring that holds a queue answers as the queue does; the ring then holds what the queue
-- holds, and its capacity stays.
pub pop_refines :
    (r : SpscRingBuffer) (q : Queue)
    → Represents r q
    → ((pop r).0 ≡ (dequeue q).0)
      × Represents (pop r).1 (dequeue q).1
      × ((pop r).1.capacity ≡ r.capacity)
unfolding dequeue popped
pop_refines r [] h = rw (pop-empty r h) (refl, h, refl)
pop_refines r (m ∷ q) h = elim (Bool-cases (ltb max_payload_size (length m))) [
  | inl over ↦
      let e : pop r ≡ (none, r) = rw (pop_front m q h, over) in rw (over, e) (refl, h, refl)
  | inr lawful ↦
      let e : pop r ≡ (some m, popped m r) = rw (pop_front m q h, lawful) in
      rw (lawful, e) (refl, popped-Represents m q h, refl)
]

-- Calls of the two ends, in the order in which they take effect, and what each returns.
pub data Op : Type 0 where
  pushes : List ℕ → Op
  pops : Op

pub data Reply : Type 0 where
  pushed_to : Bool → Reply
  popped_from : Option (List ℕ) → Reply

unfoldable pub run : SpscRingBuffer → List Op → List Reply
run r [] = []
run r (pushes m ∷ ops) = let (a, r') = push m r in pushed_to a ∷ run r' ops
run r (pops ∷ ops) = let (a, r') = pop r in popped_from a ∷ run r' ops

unfoldable pub run_queue : ℕ → Queue → List Op → List Reply
run_queue cap q [] = []
run_queue cap q (pushes m ∷ ops) =
    let (a, q') = enqueue cap m q in pushed_to a ∷ run_queue cap q' ops
run_queue cap q (pops ∷ ops) = let (a, q') = dequeue q in popped_from a ∷ run_queue cap q' ops

-- A ring that holds a queue gives the replies of the queue to any sequence of calls.
pub run_refines :
    (ops : List Op) (r : SpscRingBuffer) (q : Queue)
    → Represents r q
    → run r ops ≡ run_queue r.capacity q ops
unfolding run run_queue
run_refines [] r q h = refl
run_refines (pushes m ∷ ops) r q h =
    let (a, v, c) = push_refines m r q h in
    ap₂ (λ a l. pushed_to a ∷ l) a
      (run_refines ops (push m r).1 (enqueue r.capacity m q).1 v
        ∙ ap (λ k. run_queue k (enqueue r.capacity m q).1 ops) c)
run_refines (pops ∷ ops) r q h =
    let (a, v, c) = pop_refines r q h in
    ap₂ (λ a l. popped_from a ∷ l) a
      (run_refines ops (pop r).1 (dequeue q).1 v ∙ ap (λ k. run_queue k (dequeue q).1 ops) c)

-- A ring made for `n` bytes, fewer than 2 ^ 32, gives the replies of the empty queue that takes fewer
-- than `n + 1` bytes to any sequence of calls.
pub run-make : (n : ℕ) (ops : List Op) → n < 2 ^ 32 → run (make n) ops ≡ run_queue (n + 1) [] ops
run-make n ops h =
    let (v, c) = make-Represents n h in
    run_refines ops (make n) [] v ∙ ap (λ k. run_queue k [] ops) c

-- A ring that holds a queue reports the bytes that the messages take and the bytes that are free, one
-- place excepted, and says rightly whether it is empty or full.
pub sizes_lem :
    (r : SpscRingBuffer) (q : Queue)
    → Represents r q
    → (get_readable_size r ≡ cost q)
      × (get_readable_size r + get_writable_size r + 1 ≡ r.capacity)
      × (empty r ≡ (cost q == 0))
      × (full r ≡ (cost q + 1 == r.capacity))
unfolding get_readable_size get_writable_size empty full
sizes_lem r q h = (
  readable,
  omega (arith, readable, writable, h.size),
  ground (arith, h.tail, tail_cases),
  ground (arith, next, next_cases, h.size),
)
  where
    cap : ℕ
    cap = r.capacity

    readable : sub_size (add_size r.tail cap) r.head % cap ≡ cost q
    readable =
        ap (λ t. sub_size (add_size t cap) r.head % cap) h.tail
        ∙ readable_lem cap r.head (cost q) h.bound h.head_in h.size

    writable : sub_size (sub_size (add_size r.head cap) r.tail) 1 % cap ≡ cap - 1 - cost q
    writable =
        ap (λ t. sub_size (sub_size (add_size r.head cap) t) 1 % cap) h.tail
        ∙ writable_lem cap r.head (cost q) h.bound h.head_in h.size

    tail_cases :
        ((r.head + cost q < cap) × ((r.head + cost q) % cap ≡ r.head + cost q))
        ⊎ ((cap ≤ r.head + cost q) × ((r.head + cost q) % cap ≡ r.head + cost q - cap))
    tail_cases = wrap_cases (r.head + cost q) cap (omega (arith, h.size, h.head_in))

    next : add_size r.tail 1 % cap ≡ (r.head + cost q + 1) % cap
    next = ap (λ t. t % cap) (omega (arith, tail_in h, h.bound)) ∙ tail_shift h 1

    next_cases :
        ((r.head + cost q + 1 < cap) × ((r.head + cost q + 1) % cap ≡ r.head + cost q + 1))
        ⊎ ((cap ≤ r.head + cost q + 1) × ((r.head + cost q + 1) % cap ≡ r.head + cost q + 1 - cap))
    next_cases = wrap_cases (r.head + cost q + 1) cap (omega (arith, h.size, h.head_in))

-- The messages that calls of `Pop` returned
unfoldable pub returned : List Reply → Queue
returned [] = []
returned (pushed_to b ∷ replies) = returned replies
returned (popped_from none ∷ replies) = returned replies
returned (popped_from (some m) ∷ replies) = m ∷ returned replies

-- No sequence of calls takes a message over the limit from the queue, nor one behind it.
run_queue_blocked :
    (cap : ℕ) (ops : List Op) (older newer : Queue) (m : List ℕ)
    → max_payload_size < length m
    → (left : Queue) × (returned (run_queue cap (older ++ m ∷ newer) ops) ++ left ≡ older)
unfolding run_queue returned enqueue dequeue
run_queue_blocked cap [] older newer m over = (older, refl)
run_queue_blocked cap (pushes x ∷ ops) older newer m over =
    if_keeps
      (λ (o : Bool × Queue). (left : Queue) × (returned (run_queue cap o.1 ops) ++ left ≡ older))
      (ltb 0 (length x) && ltb (cost (older ++ m ∷ newer) + (4 + length x)) cap) _ _
      (subst (λ q. (left : Queue) × (returned (run_queue cap q ops) ++ left ≡ older))
        (sym (append_assoc older (m ∷ newer) (x ∷ [])))
        (run_queue_blocked cap ops older (newer ++ x ∷ []) m over))
      (run_queue_blocked cap ops older newer m over)
run_queue_blocked cap (pops ∷ ops) [] newer m over =
    let big : ltb max_payload_size (length m) ≡ true = ground arith in
    rw (big) (run_queue_blocked cap ops [] newer m over)
run_queue_blocked cap (pops ∷ ops) (o ∷ older) newer m over =
    elim (Bool-cases (ltb max_payload_size (length o))) [
      | inl stuck ↦ rw (stuck) (run_queue_blocked cap ops (o ∷ older) newer m over)
      | inr lawful ↦
          let (left, e) = run_queue_blocked cap ops older newer m over in
          rw (lawful) (left, ap (◌∷◌ o) e)
    ]

-- A ring that holds a queue takes a message over the payload limit where its bytes and their length
-- fit, one place excepted; and whatever is pushed and popped after that, `Pop` returns only messages
-- that stood before it, in their order, and never the message or one behind it.
pub oversize_blocks :
    (ops : List Op) (m : List ℕ) (r : SpscRingBuffer) (older : Queue)
    → Represents r older
    → max_payload_size < length m
    → cost older + (4 + length m) < r.capacity
    → ((push m r).0 ≡ true) × (left : Queue) × (returned (run (push m r).1 ops) ++ left ≡ older)
unfolding enqueue
oversize_blocks ops m r older h over fits =
    let (a, v, c) = push_refines m r older h in
    let room : (ltb 0 (length m) && ltb (cost older + (4 + length m)) r.capacity) ≡ true =
      ground arith in
    let taken : enqueue r.capacity m older ≡ (true, older ++ m ∷ []) = rw (room) refl in
    let holds : Represents (push m r).1 (older ++ m ∷ []) =
      subst (λ (o : Bool × Queue). Represents (push m r).1 o.1) taken v in
    let (left, e) = run_queue_blocked (push m r).1.capacity ops older [] m over in
    (
      a ∙ ap (λ o. o.0) taken,
      left,
      ap (λ l. returned l ++ left) (run_refines ops (push m r).1 (older ++ m ∷ []) holds) ∙ e,
    )
