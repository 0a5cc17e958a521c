-- ===== src/Common/RateLimiter.antt =====
-- src/common/rate_limiter.h: the token bucket. What it does with a `double` is a parameter; a time is
-- a reading of the steady clock in nanoseconds, which does not run backwards.
use proto_msg_queue.Prelude.{
  ℕ, ◌-◌, ◌≡◌, Bool, true, false, List, [], ◌∷◌, if◌then◌else◌, Bool-cases, inl, inr,
}

-- The operations on `double` that the code uses; `seconds` is the length of a number of nanoseconds.
pub record Double {ℓ} (W : Type ℓ) : Type ℓ where
  pub of_nat : ℕ → W
  pub seconds : ℕ → W
  pub add : W → W → W
  pub sub : W → W → W
  pub mul : W → W → W
  pub ge : W → W → Bool
  pub gt : W → W → Bool

-- What rounding keeps: a difference is no larger than the minuend and, of what is at least as large,
-- not negative; to add a product of numbers that are not negative makes nothing negative.
pub record IsRounded {ℓ} {W : Type ℓ} (d : Double W) : Type ℓ where
  pub gt_irrefl : (n : ℕ) → d.gt (d.of_nat n) (d.of_nat n) ≡ false
  pub gt-zero : (n : ℕ) → d.gt (d.of_nat 0) (d.of_nat n) ≡ false
  pub gt-sub : (x y : W) (n : ℕ) → d.gt x y ≡ false → d.gt (d.sub x (d.of_nat n)) y ≡ false
  pub sub_nonneg :
      (x : W) (n : ℕ)
      → d.ge x (d.of_nat n) ≡ true
      → d.gt (d.of_nat 0) (d.sub x (d.of_nat n)) ≡ false
  pub add_nonneg :
      (x : W) (t r : ℕ)
      → d.gt (d.of_nat 0) x ≡ false
      → d.gt (d.of_nat 0) (d.add x (d.mul (d.seconds t) (d.of_nat r))) ≡ false

-- `class TokenBucket`
pub record TokenBucket {ℓ} (W : Type ℓ) : Type ℓ where
  pub rate_per_second : ℕ
  pub burst_size : ℕ
  pub tokens : W
  pub last_refill_time : ℕ

module _ {ℓ} {W : Type ℓ} (d : Double W) where
  -- The constructor
  unfoldable pub make_bucket : ℕ → ℕ → ℕ → TokenBucket W
  make_bucket rate burst now = record {
    rate_per_second = rate;
    burst_size = burst;
    tokens = d.of_nat burst;
    last_refill_time = now;
  }

  -- `if (tokens_ > burst) tokens_ = burst`
  unfoldable pub cap_tokens : ℕ → W → W
  cap_tokens burst tokens = if d.gt tokens (d.of_nat burst) then d.of_nat burst else tokens

  -- `Refill`
  unfoldable pub refill : ℕ → TokenBucket W → TokenBucket W
  refill now b =
      let elapsed_seconds = d.seconds (now - b.last_refill_time) in
      record b {
        tokens =
            cap_tokens b.burst_size
              (d.add b.tokens (d.mul elapsed_seconds (d.of_nat b.rate_per_second)));
        last_refill_time = now;
      }

  -- `Acquire`
  unfoldable pub acquire : ℕ → ℕ → TokenBucket W → Bool × TokenBucket W
  acquire tokens now b0 =
      let b = refill now b0 in
      if d.ge b.tokens (d.of_nat tokens)
      then (true, record b { tokens = d.sub b.tokens (d.of_nat tokens) })
      else (false, b)

  -- `SetRate`
  unfoldable pub set_rate : ℕ → ℕ → ℕ → TokenBucket W → TokenBucket W
  set_rate rate burst now b0 =
      let b = refill now b0 in
      record b { rate_per_second = rate; burst_size = burst; tokens = cap_tokens burst b.tokens }

-- A call of a method, with its arguments and the time at which it is made.
pub data Call : Type 0 where
  acquire_call : ℕ → ℕ → Call
  set_rate_call : ℕ → ℕ → ℕ → Call

module _ {ℓ} {W : Type ℓ} (d : Double W) where
  unfoldable pub run_call : Call → TokenBucket W → TokenBucket W
  run_call (acquire_call tokens now) b = (acquire d tokens now b).1
  run_call (set_rate_call rate burst now) b = set_rate d rate burst now b

  unfoldable pub run_calls : List Call → TokenBucket W → TokenBucket W
  run_calls [] b = b
  run_calls (c ∷ calls) b = run_calls calls (run_call c b)

  -- The bucket holds no more than its size and no debt.
  pub record IsWithin (b : TokenBucket W) : Type ℓ where
    pub capped : d.gt b.tokens (d.of_nat b.burst_size) ≡ false
    pub nonneg : d.gt (d.of_nat 0) b.tokens ≡ false

  module _ (laws : IsRounded d) where
    cap_tokens-capped : (burst : ℕ) (t : W) → d.gt (cap_tokens d burst t) (d.of_nat burst) ≡ false
    unfolding cap_tokens
    cap_tokens-capped burst t = elim (Bool-cases (d.gt t (d.of_nat burst))) [
      | inl e ↦ rw e (laws.gt_irrefl burst)
      | inr e ↦ rw e e
    ]

    cap_tokens-nonneg :
        (burst : ℕ) (t : W)
        → d.gt (d.of_nat 0) t ≡ false
        → d.gt (d.of_nat 0) (cap_tokens d burst t) ≡ false
    unfolding cap_tokens
    cap_tokens-nonneg burst t h = elim (Bool-cases (d.gt t (d.of_nat burst))) [
      | inl e ↦ rw e (laws.gt-zero burst)
      | inr e ↦ rw e h
    ]

    refill-IsWithin : (now : ℕ) (b : TokenBucket W) → IsWithin b → IsWithin (refill d now b)
    unfolding refill
    refill-IsWithin now b h = record {
      capped = cap_tokens-capped _ _;
      nonneg = cap_tokens-nonneg _ _ (laws.add_nonneg _ _ _ h.nonneg);
    }

    acquire-IsWithin : (n now : ℕ) (b : TokenBucket W) → IsWithin b → IsWithin (acquire d n now b).1
    unfolding acquire
    acquire-IsWithin n now b h =
        let w = refill-IsWithin now b h in
        elim (Bool-cases (d.ge (refill d now b).tokens (d.of_nat n))) [
          | inl e ↦
              rw e (record { capped = laws.gt-sub _ _ _ w.capped; nonneg = laws.sub_nonneg _ _ e })
          | inr e ↦ rw e w
        ]

    set_rate-IsWithin :
        (rate burst now : ℕ) (b : TokenBucket W)
        → IsWithin b
        → IsWithin (set_rate d rate burst now b)
    unfolding set_rate
    set_rate-IsWithin rate burst now b h = record {
      capped = cap_tokens-capped _ _;
      nonneg = cap_tokens-nonneg _ _ (refill-IsWithin now b h).nonneg;
    }

    run_calls-keeps :
        (calls : List Call) (b : TokenBucket W) → IsWithin b → IsWithin (run_calls calls b)
    unfolding run_calls run_call
    run_calls-keeps [] b h = h
    run_calls-keeps (acquire_call n now ∷ calls) b h =
        run_calls-keeps calls _ (acquire-IsWithin n now b h)
    run_calls-keeps (set_rate_call rate burst now ∷ calls) b h =
        run_calls-keeps calls _ (set_rate-IsWithin rate burst now b h)

    -- After any calls of `Acquire` and `SetRate` on a new bucket it holds no more tokens than its
    -- size at that time, and never fewer than none.
    pub run_calls-IsWithin :
        (rate burst now : ℕ) (calls : List Call)
        → IsWithin (run_calls calls (make_bucket d rate burst now))
    unfolding make_bucket
    run_calls-IsWithin rate burst now calls =
        run_calls-keeps calls _
          (record { capped = laws.gt_irrefl burst; nonneg = laws.gt-zero burst })
