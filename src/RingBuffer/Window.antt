-- ===== src/RingBuffer/Window.antt =====
-- Runs of bytes in a ring, by positions that are reduced only where the buffer is touched.
use native.Mathlib.Nat.{mod-add-mod, mod-eq_of_lt, mod-eq-sub-mod, mod-lt}
use native.Mathlib.Decide.{dec_lt}
use proto_msg_queue.Prelude.{
  ℕ, zero, suc, ◌+◌, ◌-◌, ◌%◌, ◌^◌, ◌≤◌, ◌<◌, ◌≡◌, ◌≢◌, ◌⊎◌, inl, inr, refl, sym, ap, ap₂, ◌∙◌,
  List, [], ◌∷◌, ◌++◌, length, get_or, set, arith, length-set, get_or-set_self, get_or-set_ne,
}
use proto_msg_queue.RingBuffer.{put_bytes, get_bytes, add_size}

-- A position within two rounds, reduced.
pub wrap_cases :
    (x cap : ℕ) → x < cap + cap → ((x < cap) × (x % cap ≡ x)) ⊎ ((cap ≤ x) × (x % cap ≡ x - cap))
wrap_cases x cap h = elim (dec_lt x cap) [
  | yes low ↦ inl (low, mod-eq_of_lt low)
  | no high ↦ inr (
    omega arith,
    mod-eq-sub-mod {n = x} {m = cap} (omega arith) ∙ mod-eq_of_lt {n = x - cap} (omega arith),
  )
]

module _ (cap : ℕ) where
  abbrev pub window : ℕ → ℕ → List ℕ → List ℕ
  window p zero buffer = []
  window p (suc n) buffer = get_or buffer (p % cap) 0 ∷ window (p + 1) n buffer

  abbrev pub write : ℕ → List ℕ → List ℕ → List ℕ
  write p [] buffer = buffer
  write p (b ∷ bs) buffer = write (p + 1) bs (set buffer (p % cap) b)

  pub get_bytes-window :
      (base i n : ℕ) (buffer : List ℕ)
      → base + i + n ≤ 2 ^ 64
      → get_bytes cap base i n buffer ≡ window (base + i) n buffer
  unfolding get_bytes
  get_bytes-window base i zero buffer h = refl
  get_bytes-window base i (suc n) buffer h =
      let e : add_size base i ≡ base + i = omega arith in
      let f : base + (i + 1) ≡ base + i + 1 = omega arith in
      ap₂ (λ a l. get_or buffer (a % cap) 0 ∷ l) e
        (get_bytes-window base (i + 1) n buffer (omega arith) ∙ ap (λ q. window q n buffer) f)

  pub put_bytes-write :
      (base i : ℕ) (bs buffer : List ℕ)
      → base + i + length bs ≤ 2 ^ 64
      → put_bytes cap base i bs buffer ≡ write (base + i) bs buffer
  unfolding put_bytes
  put_bytes-write base i [] buffer h = refl
  put_bytes-write base i (b ∷ bs) buffer h =
      let e : add_size base i ≡ base + i = omega arith in
      let f : base + (i + 1) ≡ base + i + 1 = omega arith in
      put_bytes-write base (i + 1) bs (set buffer (add_size base i % cap) b) (omega arith)
      ∙ ap₂ (λ q a. write q bs (set buffer (a % cap) b)) f e

  pub length-window : (p n : ℕ) (buffer : List ℕ) → length (window p n buffer) ≡ n
  length-window p zero buffer = refl
  length-window p (suc n) buffer = ap suc (length-window (p + 1) n buffer)

  pub length-write : (p : ℕ) (bs buffer : List ℕ) → length (write p bs buffer) ≡ length buffer
  length-write p [] buffer = refl
  length-write p (b ∷ bs) buffer =
      length-write (p + 1) bs (set buffer (p % cap) b) ∙ length-set buffer (p % cap) b

  pub window-add :
      (p n k : ℕ) (buffer : List ℕ)
      → window p (n + k) buffer ≡ window p n buffer ++ window (p + n) k buffer
  window-add p zero k buffer = ap₂ (λ q m. window q m buffer) (omega arith) (omega arith)
  window-add p (suc n) k buffer =
      let e : suc n + k ≡ suc (n + k) = omega arith in
      let f : p + 1 + n ≡ p + suc n = omega arith in
      ap (λ m. window p m buffer) e
      ∙ ap (◌∷◌ (get_or buffer (p % cap) 0))
          (window-add (p + 1) n k buffer ∙ ap (λ q. window (p + 1) n buffer ++ window q k buffer) f)

  next-mod : (p q : ℕ) → p % cap ≡ q % cap → (p + 1) % cap ≡ (q + 1) % cap
  next-mod p q e = sym (mod-add-mod p cap 1) ∙ ap (λ r. (r + 1) % cap) e ∙ mod-add-mod q cap 1

  -- Positions that are equal round the ring show the same bytes, and take the same writes.
  pub window-mod :
      (p q n : ℕ) (buffer : List ℕ) → p % cap ≡ q % cap → window p n buffer ≡ window q n buffer
  window-mod p q zero buffer e = refl
  window-mod p q (suc n) buffer e =
      ap₂ (λ i l. get_or buffer i 0 ∷ l) e (window-mod (p + 1) (q + 1) n buffer (next-mod p q e))

  pub write-mod :
      (p q : ℕ) (bs buffer : List ℕ) → p % cap ≡ q % cap → write p bs buffer ≡ write q bs buffer
  write-mod p q [] buffer e = refl
  write-mod p q (b ∷ bs) buffer e =
      ap (λ i. write (p + 1) bs (set buffer i b)) e
      ∙ write-mod (p + 1) (q + 1) bs (set buffer (q % cap) b) (next-mod p q e)

  pub write-append :
      (p : ℕ) (bs cs buffer : List ℕ)
      → write p (bs ++ cs) buffer ≡ write (p + length bs) cs (write p bs buffer)
  write-append p [] cs buffer = ap (λ q. write q cs buffer) (omega arith)
  write-append p (b ∷ bs) cs buffer =
      write-append (p + 1) bs cs (set buffer (p % cap) b)
      ∙ ap (λ q. write q cs (write (p + 1) bs (set buffer (p % cap) b))) (omega arith)

  -- Two positions less than a round apart are different places.
  pub places_ne : (q p : ℕ) → q < p → p < q + cap → q % cap ≢ p % cap
  places_ne q p h k e = elim (dec_lt (q % cap + d) cap) [
    | yes low ↦ omega (arith, shift, e, mod-eq_of_lt low)
    | no high ↦ omega (
      arith,
      shift,
      e,
      mod-lt q {m = cap} (omega arith),
      mod-eq-sub-mod {n = q % cap + d} {m = cap} (omega arith),
      mod-eq_of_lt {n = q % cap + d - cap} {m = cap}
          (omega (arith, mod-lt q {m = cap} (omega arith))),
    )
  ]
    where
      d : ℕ
      d = p - q

      shift : (q % cap + d) % cap ≡ p % cap
      shift = mod-add-mod q cap d ∙ ap (λ t. t % cap) (omega arith)

  get-write_other :
      (q p : ℕ) (bs buffer : List ℕ)
      → q < p
      → p + length bs ≤ q + cap
      → get_or (write p bs buffer) (q % cap) 0 ≡ get_or buffer (q % cap) 0
  get-write_other q p [] buffer h k = refl
  get-write_other q p (b ∷ bs) buffer h k =
      get-write_other q (p + 1) bs (set buffer (p % cap) b) (omega arith) (omega arith)
      ∙ get_or-set_ne buffer (p % cap) (q % cap) b 0 (λ e. places_ne q p h (omega arith) (sym e))

  -- What stands within a round before a write is kept.
  pub window-write_other :
      (q n p : ℕ) (bs buffer : List ℕ)
      → q + n ≤ p
      → p + length bs ≤ q + cap
      → window q n (write p bs buffer) ≡ window q n buffer
  window-write_other q zero p bs buffer h k = refl
  window-write_other q (suc n) p bs buffer h k =
      ap₂ ◌∷◌ (get-write_other q p bs buffer (omega arith) k)
        (window-write_other (q + 1) n p bs buffer (omega arith) (omega arith))

  -- A write of at most one round is read back.
  pub window-write_self :
      (p : ℕ) (bs buffer : List ℕ)
      → 0 < cap
      → cap ≤ length buffer
      → length bs ≤ cap
      → window p (length bs) (write p bs buffer) ≡ bs
  window-write_self p [] buffer c l h = refl
  window-write_self p (b ∷ bs) buffer c l h =
      ap₂ ◌∷◌
        (get-write_other p (p + 1) bs (set buffer (p % cap) b) (omega arith) (omega arith)
          ∙ get_or-set_self buffer (p % cap) b 0 (omega (arith, mod-lt p c)))
        (window-write_self (p + 1) bs (set buffer (p % cap) b) c
          (omega (arith, length-set buffer (p % cap) b)) (omega arith))
