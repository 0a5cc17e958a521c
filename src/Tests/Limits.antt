-- ===== src/Tests/Limits.antt =====
-- A token bucket over whole numbers, and a compression that puts the data in a box.
use proto_msg_queue.Prelude.{
  ℕ, ◌+◌, ◌-◌, ◌*◌, ◌/◌, ◌^◌, ◌≡◌, refl, some, List, [], ◌∷◌, ltb, leb, arith, length,
  if◌then◌else◌,
}
use proto_msg_queue.Map.{text_eq}
use proto_msg_queue.Common.Compression.{
  Zlib, IsZlib, Inflated, inflated, buf_error, compress, decompress, decompress-compress,
}
use proto_msg_queue.Common.RateLimiter.{
  Double, IsRounded, make_bucket, acquire_call, set_rate_call, run_calls, IsWithin,
  run_calls-IsWithin,
}

-- Numbers in billionths
instance abbrev pub nano_double : Double ℕ
nano_double = record {
  of_nat = λ n. n * 10 ^ 9;
  seconds = λ t. t;
  add = ◌+◌;
  sub = ◌-◌;
  mul = λ x y. x * y / 10 ^ 9;
  ge = λ x y. leb y x;
  gt = λ x y. ltb y x;
}

nano_double-IsRounded : IsRounded nano_double
nano_double-IsRounded = record {
  gt_irrefl = λ n. ground arith;
  gt-zero = λ n. ground arith;
  gt-sub = λ x y n h. ground arith;
  sub_nonneg = λ x n h. ground arith;
  add_nonneg = λ x t r h. ground arith;
}

run_calls-IsWithin_example : IsWithin nano_double (
    run_calls nano_double
      (acquire_call 2 1000 ∷ set_rate_call 5 1 2000 ∷ [])
      (make_bucket nano_double 10 3 0))
run_calls-IsWithin_example =
    run_calls-IsWithin nano_double nano_double-IsRounded 10 3 0
      (acquire_call 2 1000 ∷ set_rate_call 5 1 2000 ∷ [])

-- Streams that hold the data behind one byte
unfoldable pub inflate : ℕ → List ℕ → Inflated
inflate n [] = buf_error
inflate n (b ∷ d) = if leb (length d) n then inflated d else buf_error

abbrev pub boxing : Zlib
boxing = record { compress2 = λ d. some (0 ∷ d); uncompress = inflate }

boxed : (d c : List ℕ) → some (0 ∷ d) ≡ some c → c ≡ 0 ∷ d
boxed d c h = cc

boxing-IsZlib : IsZlib boxing
unfolding inflate
boxing-IsZlib = record {
  some_output = λ d c made. rw (boxed d c made) (omega arith);
  with_room = λ d c n made room. rw (boxed d c made) (ground arith);
  no_room = λ d c n made room. rw (boxed d c made) (ground arith);
}

decompress-compress_example : decompress boxing (compress boxing (7 ∷ 8 ∷ [])) ≡ 7 ∷ 8 ∷ []
decompress-compress_example =
    decompress-compress boxing boxing-IsZlib (7 ∷ 8 ∷ []) (0 ∷ 7 ∷ 8 ∷ []) refl refl (omega arith)
