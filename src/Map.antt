-- ===== src/Map.antt =====
-- `std::unordered_map` as an association list: `operator[]`, `find` and `erase`. A loop over a map
-- visits the list from its front; the program leaves the order to the library.
use Prim.Native.Char.{code}
use proto_msg_queue.Prelude.{
  String, ℕ, ◌≡◌, ◌↔◌, refl, Bool, true, false, ◌&&◌, Option, none, some, List, [], ◌∷◌, arith,
  ◌==◌, ==_iff, if◌then◌else◌, All, Bool-cases, some_inj, inl, inr, sym, subst, ◌∙◌,
}

-- Keys with a test for equality.
pub record Eq {ℓ} (K : Type ℓ) : Type ℓ where
  pub beq : K → K → Bool
  pub beq_iff : (a b : K) → (beq a b ≡ true) ↔ (a ≡ b)

instance abbrev pub number_eq : Eq ℕ
number_eq = record { beq = ◌==◌; beq_iff = ==_iff }

-- `std::string` as its bytes.
abbrev pub Text : Type 0
Text = List ℕ

-- A literal of the source, which is ASCII.
abbrev pub codes : String → Text
codes String.[] = []
codes (String.◌∷◌ c s) = code c ∷ codes s

abbrev pub text_beq : Text → Text → Bool
text_beq [] [] = true
text_beq [] (b ∷ t) = false
text_beq (a ∷ s) [] = false
text_beq (a ∷ s) (b ∷ t) = (a == b) && text_beq s t

pub text_beq_iff : (s t : Text) → (text_beq s t ≡ true) ↔ (s ≡ t)
text_beq_iff [] [] = (λ e. refl, λ e. refl)
text_beq_iff [] (b ∷ t) = (λ e. absurd (cc), λ e. absurd (cc))
text_beq_iff (a ∷ s) [] = (λ e. absurd (cc), λ e. absurd (cc))
text_beq_iff (a ∷ s) (b ∷ t) =
    let ih = text_beq_iff s t in (λ e. ground (arith, ih), λ e. ground (arith, ih))

instance abbrev pub text_eq : Eq Text
text_eq = record { beq = text_beq; beq_iff = text_beq_iff }

pub beq_refl {ℓ} : {K : Type ℓ} ⦃e : Eq K⦄ (k : K) → e.beq k k ≡ true
beq_refl ⦃e⦄ k = (e.beq_iff k k).1 refl

module _ {ℓ κ} {K : Type ℓ} {V : Type κ} ⦃e : Eq K⦄ where
  -- `find`
  unfoldable pub lookup : K → List (K × V) → Option V
  lookup k [] = none
  lookup k ((j, v) ∷ m) = if e.beq j k then some v else lookup k m

  -- `m[k] = v`
  unfoldable pub insert : K → V → List (K × V) → List (K × V)
  insert k v [] = (k, v) ∷ []
  insert k v ((j, w) ∷ m) = if e.beq j k then (k, v) ∷ m else (j, w) ∷ insert k v m

  -- `erase(k)`
  unfoldable pub erase : K → List (K × V) → List (K × V)
  erase k [] = []
  erase k ((j, w) ∷ m) = let rest = erase k m in if e.beq j k then rest else (j, w) ∷ rest

  pub lookup-insert :
      (k j : K) (v : V) (m : List (K × V))
      → lookup j (insert k v m) ≡ (if e.beq k j then some v else lookup j m)
  unfolding lookup insert
  lookup-insert k j v [] = refl
  lookup-insert k j v ((i, w) ∷ m) =
      ground (arith, e.beq_iff k j, e.beq_iff i k, e.beq_iff i j, lookup-insert k j v m)

  pub lookup-erase :
      (k j : K) (m : List (K × V)) → lookup j (erase k m) ≡ (if e.beq k j then none else lookup j m)
  unfolding lookup erase
  lookup-erase k j [] = ground arith
  lookup-erase k j ((i, w) ∷ m) =
      ground (arith, e.beq_iff k j, e.beq_iff i k, e.beq_iff i j, lookup-erase k j m)

  pub lookup-insert_self : (k : K) (v : V) (m : List (K × V)) → lookup k (insert k v m) ≡ some v
  lookup-insert_self k v m = rw (lookup-insert k k v m, beq_refl k)

  pub lookup-insert_other :
      (k j : K) (v : V) (m : List (K × V))
      → e.beq k j ≡ false
      → lookup j (insert k v m) ≡ lookup j m
  lookup-insert_other k j v m other = lookup-insert k j v m ∙ rw other refl

  pub lookup-erase_other :
      (k j : K) (m : List (K × V)) → e.beq k j ≡ false → lookup j (erase k m) ≡ lookup j m
  lookup-erase_other k j m other = lookup-erase k j m ∙ rw other refl

  pub lookup-erase_self : (k : K) (m : List (K × V)) → lookup k (erase k m) ≡ none
  lookup-erase_self k m = rw (lookup-erase k k m, beq_refl k)

-- A predicate of every entry of a map
module _ {ℓ κ μ} {K : Type ℓ} {V : Type κ} ⦃e : Eq K⦄ (P : K × V → Type μ) where
  pub All-insert_entry :
      (k : K) (v : V) (m : List (K × V)) → P (k, v) → All P m → All P (insert k v m)
  unfolding insert
  All-insert_entry k v [] p h = (p, tt)
  All-insert_entry k v ((j, w) ∷ m) p h = elim (Bool-cases (e.beq j k)) [
    | inl same ↦ rw same (p, h.1)
    | inr other ↦ rw other (h.0, All-insert_entry k v m p h.1)
  ]

  pub All-erase_entry : (k : K) (m : List (K × V)) → All P m → All P (erase k m)
  unfolding erase
  All-erase_entry k [] h = tt
  All-erase_entry k ((j, w) ∷ m) h = elim (Bool-cases (e.beq j k)) [
    | inl same ↦ rw same (All-erase_entry k m h.1)
    | inr other ↦ rw other (h.0, All-erase_entry k m h.1)
  ]

  pub All-lookup_entry :
      (k : K) (v : V) (m : List (K × V)) → All P m → lookup k m ≡ some v → P (k, v)
  unfolding lookup
  All-lookup_entry k v [] h found = absurd (cc)
  All-lookup_entry k v ((j, w) ∷ m) h found = elim (Bool-cases (e.beq j k)) [
    | inl same ↦
        let here : w ≡ v = some_inj w v (sym (rw (lookup, same) refl) ∙ found) in
        subst (λ u. P (k, u)) here (subst (λ i. P (i, w)) ((e.beq_iff j k).0 same) h.0)
    | inr other ↦ All-lookup_entry k v m h.1 (sym (rw (lookup, other) refl) ∙ found)
  ]

-- A predicate of every value of a map
module _ {ℓ κ μ} {K : Type ℓ} {V : Type κ} ⦃e : Eq K⦄ (P : V → Type μ) where
  pub All-insert :
      (k : K) (v : V) (m : List (K × V))
      → P v
      → All (λ x. P x.1) m
      → All (λ x. P x.1) (insert k v m)
  All-insert = All-insert_entry (λ x. P x.1)

  pub All-erase : (k : K) (m : List (K × V)) → All (λ x. P x.1) m → All (λ x. P x.1) (erase k m)
  All-erase = All-erase_entry (λ x. P x.1)

  pub All-lookup :
      (k : K) (v : V) (m : List (K × V)) → All (λ x. P x.1) m → lookup k m ≡ some v → P v
  All-lookup = All-lookup_entry (λ x. P x.1)
