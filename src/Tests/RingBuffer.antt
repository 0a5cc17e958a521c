-- ===== src/Tests/RingBuffer.antt =====
-- A ring for sixteen bytes, and one that a message over the limit blocks.
use proto_msg_queue.Prelude.{
  ℕ, ◌+◌, ◌≡◌, ◌^◌, Bool, true, List, [], ◌∷◌, ◌++◌, length, replicate, length-replicate, arith,
  subst, refl,
}
use proto_msg_queue.Protocol.Frame.{max_payload_size}
use proto_msg_queue.RingBuffer.{SpscRingBuffer, make, push}
use proto_msg_queue.RingBuffer.Contents.{Represents, make-Represents, cost}
use proto_msg_queue.RingBuffer.Queue.{
  Queue, Op, pushes, pops, run, run_queue, run-make, enqueue, returned, push_refines,
  oversize_blocks,
}

abbrev ops : List Op
ops =
    pushes (1 ∷ 2 ∷ 3 ∷ [])
    ∷ pushes (4 ∷ 5 ∷ [])
    ∷ pushes (6 ∷ 7 ∷ 8 ∷ 9 ∷ [])
    ∷ pops
    ∷ pushes (6 ∷ 7 ∷ 8 ∷ 9 ∷ [])
    ∷ pops
    ∷ pops
    ∷ pops
    ∷ []

make_empty : Represents (make 16) []
make_empty = (make-Represents 16 (omega arith)).0

run-make_example : run (make 16) ops ≡ run_queue 17 [] ops
run-make_example = run-make 16 ops (omega arith)

-- One byte more than the limit.
big : List ℕ
big = replicate (max_payload_size + 1) 0

big_lem : length big ≡ max_payload_size + 1
unfolding big
big_lem = length-replicate {A = ℕ} (max_payload_size + 1) 0

abbrev big_ring : SpscRingBuffer
big_ring = make (2 ^ 25)

big_ring-Represents : Represents big_ring []
big_ring-Represents = (make-Represents (2 ^ 25) (omega arith)).0

big_ring-size : big_ring.capacity ≡ 2 ^ 25 + 1
big_ring-size = (make-Represents (2 ^ 25) (omega arith)).1

abbrev seven : List ℕ
seven = 7 ∷ []

fits : enqueue big_ring.capacity seven [] ≡ (true, seven ∷ [])
unfolding enqueue cost
fits = rw (big_ring-size) refl

holds_seven : Represents (push seven big_ring).1 (seven ∷ [])
holds_seven =
    subst (λ (o : Bool × Queue). Represents (push seven big_ring).1 o.1) fits
      (push_refines seven big_ring [] big_ring-Represents).1

oversize_blocks_example :
    ((push big (push seven big_ring).1).0 ≡ true)
    × (left : Queue) × (returned (run (push big (push seven big_ring).1).1 ops) ++ left
        ≡ seven ∷ [])
unfolding cost
oversize_blocks_example =
    oversize_blocks ops big (push seven big_ring).1 (seven ∷ []) holds_seven
      (omega (arith, big_lem))
      (omega
        (arith, big_lem, big_ring-size, (push_refines seven big_ring [] big_ring-Represents).2))
