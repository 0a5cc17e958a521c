-- ===== src/Common/Compression.antt =====
-- src/common/compression.cpp over zlib, which is a parameter.
use proto_msg_queue.Prelude.{
  is_empty, ℕ, zero, suc, ◌*◌, ◌^◌, ◌%◌, ◌≤◌, ◌<◌, ◌≡◌, refl, ap, ◌∙◌, true, false, Option, none,
  some, List, [], ◌∷◌, arith, length, ltb, leb, if◌then◌else◌, Bool-cases, inl, inr, max,
}

-- What `uncompress` answers: Z_OK with the bytes, Z_BUF_ERROR, or another code.
pub data Inflated : Type 0 where
  inflated : List ℕ → Inflated
  buf_error : Inflated
  corrupt : Inflated

-- `compress2` into a buffer of `compressBound` bytes, `none` for a code other than Z_OK, and
-- `uncompress` into a buffer of the size given.
pub record Zlib : Type 0 where
  pub compress2 : List ℕ → Option (List ℕ)
  pub uncompress : ℕ → List ℕ → Inflated

-- What zlib documents: a stream that `compress2` made is not empty, and `uncompress` gives the data
-- back if there is room for them, and Z_BUF_ERROR if there is not.
pub record IsZlib (z : Zlib) : Type 0 where
  pub some_output : (d c : List ℕ) → z.compress2 d ≡ some c → 0 < length c
  pub with_room :
      (d c : List ℕ) (n : ℕ) → z.compress2 d ≡ some c → length d ≤ n → z.uncompress n c ≡ inflated d
  pub no_room :
      (d c : List ℕ) (n : ℕ) → z.compress2 d ≡ some c → n < length d → z.uncompress n c ≡ buf_error

unfoldable pub or_nothing : Option (List ℕ) → List ℕ
or_nothing none = []
or_nothing (some c) = c

-- The first estimate
unfoldable pub first_estimate : List ℕ → ℕ
first_estimate c =
    let estimate = length c * 4 % 2 ^ 64 in if ltb estimate 1024 then 1024 else estimate

module _ (z : Zlib) where
  -- `Compress`
  unfoldable pub compress : List ℕ → List ℕ
  compress d = if is_empty d then [] else or_nothing (z.compress2 d)

  -- The loop of `Decompress`, with the attempts that are left.
  unfoldable pub attempts : ℕ → ℕ → List ℕ → List ℕ
  attempts zero estimate c = []
  attempts (suc left) estimate c = elim (z.uncompress estimate c) [
    | inflated d ↦ d
    | buf_error ↦ attempts left (estimate * 2 % 2 ^ 64) c
    | corrupt ↦ []
  ]

  -- `Decompress`
  unfoldable pub decompress : List ℕ → List ℕ
  decompress c = if is_empty c then [] else attempts 10 (first_estimate c) c

-- The estimate of the last attempt where none wraps.
unfoldable pub last_estimate : ℕ → ℕ → ℕ
last_estimate zero e = e
last_estimate (suc left) e = last_estimate left (e * 2)

le-last_estimate : (left e : ℕ) → e ≤ last_estimate left e
unfolding last_estimate
le-last_estimate zero e = omega arith
le-last_estimate (suc left) e = omega (arith, le-last_estimate left (e * 2))

is_empty-false : (c : List ℕ) → 0 < length c → is_empty c ≡ false
is_empty-false [] h = absurd (omega arith)
is_empty-false (x ∷ c) h = refl

first_estimate_lem : (c : List ℕ) → length c < 2 ^ 52 → first_estimate c ≡ max 1024 (4 * length c)
unfolding first_estimate
first_estimate_lem c h = ground arith

module _ (z : Zlib) (laws : IsZlib z) (d c : List ℕ) (made : z.compress2 d ≡ some c) where
  attempts-buf_error :
      (left e : ℕ)
      → z.uncompress e c ≡ buf_error
      → attempts z (suc left) e c ≡ attempts z left (e * 2 % 2 ^ 64) c
  unfolding attempts
  attempts-buf_error left e h = rw (attempts, h) refl

  attempts_lem :
      (left e : ℕ)
      → last_estimate left e < 2 ^ 64
      → attempts z (suc left) e c ≡ (if leb (length d) (last_estimate left e) then d else [])
  unfolding attempts last_estimate
  attempts_lem zero e h = elim (Bool-cases (leb (length d) e)) [
    | inl fits ↦ rw (attempts, laws.with_room d c e made (ground arith), fits) refl
    | inr long ↦ rw (attempts, laws.no_room d c e made (ground arith), long) refl
  ]
  attempts_lem (suc left) e h =
      let grows = le-last_estimate left (e * 2) in
      let exact : e * 2 % 2 ^ 64 ≡ e * 2 = omega arith in
      elim (Bool-cases (leb (length d) e)) [
        | inl fits ↦
            let fits' : leb (length d) (last_estimate left (e * 2)) ≡ true = ground arith in
            rw (attempts, laws.with_room d c e made (ground arith), fits') refl
        | inr long ↦
            attempts-buf_error (suc left) e (laws.no_room d c e made (ground arith))
            ∙ ap (λ t. attempts z (suc left) t c) exact
            ∙ attempts_lem left (e * 2) h
      ]

  -- What `Compress` made, below 2 ^ 52 bytes of it, `Decompress` gives back whole if the data are no
  -- longer than 512 times its first estimate, four times the compressed size or 1024; of longer data
  -- it gives nothing. Both hold of any zlib that behaves as documented.
  pub decompress-compress :
      is_empty d ≡ false
      → length c < 2 ^ 52
      → decompress z (compress z d)
        ≡ (if leb (length d) (512 * max 1024 (4 * length c)) then d else [])
  unfolding decompress compress or_nothing first_estimate last_estimate
  decompress-compress some_data small =
      let stream = laws.some_output d c made in
      let estimate : first_estimate c ≡ max 1024 (4 * length c) = first_estimate_lem c small in
      let enough : last_estimate 9 (first_estimate c) ≡ 512 * max 1024 (4 * length c) =
        rw estimate (omega arith) in
      let found : is_empty c ≡ false = is_empty-false c stream in
      rw (some_data, made, found) (attempts_lem 9 (first_estimate c) (omega arith) ∙ rw enough refl)
