-- ===== src/Common/ConfigFile/Search.antt =====
-- What `ExtractValue` of src/common/config.cpp finds in a file that `SaveToFile` wrote.
use proto_msg_queue.Prelude.{
  ℕ, ◌≡◌, refl, sym, ap, ◌∙◌, Bool, true, false, not, ◌&&◌, ◌||◌, none, some, List, [], ◌∷◌, ◌++◌,
  All, arith, is_empty, ◌==◌, ==_refl, Bool-cases, inl, inr, subst, some_inj, append-nil,
}
use proto_msg_queue.Map.{Text, text_beq, text_beq_iff, text_eq, lookup}
use proto_msg_queue.Common.ConfigFile.{
  is_blank, trim_front, trim_back, trim, starts_with, find_text, find_char, before_char, value_of,
  tail_of, extract_value, entry, lines,
}

-- A character of a name or of a value: no quote, colon, comma, brace, slash or blank
abbrev pub plain : ℕ → Bool
plain c =
    not (c == 34)
    && (not (c == 58)
        && (not (c == 44)
            && (not (c == 125)
                && (not (c == 47) && not (c == 32 || c == 9 || c == 13 || c == 10)))))

abbrev pub IsPlain : Text → Type 0
IsPlain = All (λ c. plain c ≡ true)

-- A search for a quoted name passes a text with no quote.
find_text-plain : (p s r : Text) → IsPlain s → find_text (34 ∷ p) (s ++ r) ≡ find_text (34 ∷ p) r
unfolding find_text starts_with
find_text-plain p [] r h = refl
find_text-plain p (c ∷ s) r h =
    let other : (34 == c) ≡ false = ground (arith, h.0) in rw (other) (find_text-plain p s r h.1)

-- Different names differ at or before the closing quote.
starts_with-other :
    (k j r : Text)
    → IsPlain k
    → IsPlain j
    → text_beq j k ≡ false
    → starts_with (k ++ 34 ∷ []) (j ++ 34 ∷ r) ≡ false
unfolding starts_with
starts_with-other [] [] r hk hj e = absurd (cc)
starts_with-other [] (c ∷ j) r hk hj e = ground (arith, hj.0)
starts_with-other (c ∷ k) [] r hk hj e = ground (arith, hk.0)
starts_with-other (c ∷ k) (i ∷ j) r hk hj e = ground (arith, starts_with-other k j r hk.1 hj.1)

starts_with_self : (k r : Text) → starts_with (k ++ 34 ∷ []) (k ++ 34 ∷ r) ≡ true
unfolding starts_with
starts_with_self [] r = refl
starts_with_self (c ∷ k) r = rw (==_refl c) (starts_with_self k r)

-- Nor does a search for a name stop at the quote that closes another.
starts_with_colon : (k r : Text) → IsPlain k → starts_with (k ++ 34 ∷ []) (58 ∷ r) ≡ false
unfolding starts_with
starts_with_colon [] r h = refl
starts_with_colon (c ∷ k) r h = ground (arith, h.0)

find_char-plain : (s r : Text) → IsPlain s → find_char 58 (s ++ r) ≡ find_char 58 r
unfolding find_char
find_char-plain [] r h = refl
find_char-plain (c ∷ s) r h =
    let other : (58 == c) ≡ false = ground (arith, h.0) in rw (other) (find_char-plain s r h.1)

trim_back-plain : (s r : Text) → IsPlain s → trim_back r ≡ [] → trim_back (s ++ r) ≡ s
unfolding trim_back is_blank
trim_back-plain [] r h e = e
trim_back-plain (c ∷ s) r h e =
    let black : (c == 32 || c == 9 || c == 13 || c == 10) ≡ false = ground (arith, h.0) in
    rw (trim_back-plain s r h.1 e, black) (ground arith)

-- The text between the colon and the end of the value is trimmed to the value.
trim_value :
    (v r : Text) → IsPlain v → is_empty v ≡ false → trim_back r ≡ [] → trim (32 ∷ (v ++ r)) ≡ v
unfolding trim trim_front is_blank
trim_value [] r h some_value e = absurd (cc)
trim_value (c ∷ v) r h some_value e =
    let black : (c == 32 || c == 9 || c == 13 || c == 10) ≡ false = ground (arith, h.0) in
    rw (black) (trim_back-plain (c ∷ v) r h e)

pub trim-plain : (s : Text) → IsPlain s → trim s ≡ s
unfolding trim trim_front trim_back is_blank
trim-plain [] h = refl
trim-plain (c ∷ s) h =
    let black : (c == 32 || c == 9 || c == 13 || c == 10) ≡ false = ground (arith, h.0) in
    let body = trim_back-plain (c ∷ s) [] h refl in
    rw (black) (ap trim_back (sym (append-nil (c ∷ s))) ∙ body)

module _ (p : ℕ) where
  Without : Text → Type 0
  Without = All (λ c. (p == c) ≡ false)

  before_char-some :
      (s r t : Text) → Without s → before_char p r ≡ some t → before_char p (s ++ r) ≡ some (s ++ t)
  unfolding before_char Without
  before_char-some [] r t h e = e
  before_char-some (c ∷ s) r t h e = rw (h.0, before_char-some s r t h.1 e) refl

  before_char-none :
      (s r : Text) → Without s → before_char p r ≡ none → before_char p (s ++ r) ≡ none
  unfolding before_char Without
  before_char-none [] r h e = e
  before_char-none (c ∷ s) r h e = rw (h.0, before_char-none s r h.1 e) refl

IsPlain-Without : (s : Text) → IsPlain s → Without 44 s × Without 125 s
unfolding Without
IsPlain-Without [] h = (tt, tt)
IsPlain-Without (c ∷ s) h =
    let rest = IsPlain-Without s h.1 in
    let comma : (44 == c) ≡ false = ground (arith, h.0) in
    let brace : (125 == c) ≡ false = ground (arith, h.0) in ((comma, rest.0), (brace, rest.1))

value_of-some : (s v : Text) → before_char 44 s ≡ some v → value_of s ≡ v
unfolding value_of
value_of-some s v e = rw (e, value_of) refl

value_of-none : (s v : Text) → before_char 44 s ≡ none → before_char 125 s ≡ some v → value_of s ≡ v
unfolding value_of
value_of-none s v e f = rw (e, f, value_of) refl

-- The value of a line with a comma, and of the last
value_of_comma :
    (v r : Text) → IsPlain v → is_empty v ≡ false → trim (value_of (32 ∷ (v ++ (44 ∷ r)))) ≡ v
unfolding before_char Without trim_back
value_of_comma v r h some_value =
    ap trim (
      value_of-some (32 ∷ (v ++ (44 ∷ r))) (32 ∷ (v ++ []))
        (before_char-some 44 (32 ∷ v) (44 ∷ r) [] (refl, (IsPlain-Without v h).0) refl))
    ∙ trim_value v [] h some_value refl

value_of_brace :
    (v : Text)
    → IsPlain v
    → is_empty v ≡ false
    → trim (value_of (32 ∷ (v ++ (10 ∷ 125 ∷ 10 ∷ [])))) ≡ v
unfolding before_char Without trim_back is_blank
value_of_brace v h some_value =
    let w = IsPlain-Without v h in
    ap trim (
      value_of-none (32 ∷ (v ++ (10 ∷ 125 ∷ 10 ∷ []))) (32 ∷ (v ++ (10 ∷ [])))
        (before_char-none 44 (32 ∷ v) (10 ∷ 125 ∷ 10 ∷ []) (refl, w.0) refl)
        (before_char-some 125 (32 ∷ v) (10 ∷ 125 ∷ 10 ∷ []) (10 ∷ []) (refl, w.1) refl))
    ∙ trim_value v (10 ∷ []) h some_value refl

-- The search for a name passes the line of another one, and stops at its own.
find_text-entry_other :
    (k j v r : Text)
    → IsPlain k
    → IsPlain j
    → IsPlain v
    → text_beq j k ≡ false
    → find_text (34 ∷ (k ++ 34 ∷ [])) (entry j v r) ≡ find_text (34 ∷ (k ++ 34 ∷ [])) r
unfolding entry find_text starts_with
find_text-entry_other k j v r hk hj hv e =
    let name = k ++ 34 ∷ [] in
    rw (starts_with-other k j (58 ∷ 32 ∷ (v ++ r)) hk hj e) (
      find_text-plain name j (34 ∷ 58 ∷ 32 ∷ (v ++ r)) hj
      ∙ rw (starts_with_colon k (32 ∷ (v ++ r)) hk) (find_text-plain name v r hv))

find_text-entry_self :
    (k v r : Text)
    → find_text (34 ∷ (k ++ 34 ∷ [])) (entry k v r) ≡ some (34 ∷ (k ++ (34 ∷ 58 ∷ 32 ∷ (v ++ r))))
unfolding entry find_text starts_with
find_text-entry_self k v r = rw (starts_with_self k (58 ∷ 32 ∷ (v ++ r))) refl

-- A line to search: its name and its value are plain, and it has a value.
abbrev pub IsLine : Text × Text → Type 0
IsLine f = IsPlain f.0 × IsPlain f.1 × (is_empty f.1 ≡ false)

missing : (v : Text) → none ≡ some v → ⊥
missing v e = cc

-- The search stops at a quoted name with a colon behind it, and the text from there gives the value.
abbrev pub Finds : Text → Text → Text → Type 0
Finds k v s =
    (r : Text) × (find_text (34 ∷ (k ++ 34 ∷ [])) s ≡ some (34 ∷ (k ++ (34 ∷ 58 ∷ 32 ∷ (v ++ r)))))
    × (trim (value_of (32 ∷ (v ++ r))) ≡ v)

Finds-entry_self :
    (k v j w r : Text)
    → (trim (value_of (32 ∷ (w ++ r))) ≡ w)
    → (text_beq j k ≡ true)
    → w ≡ v
    → Finds k v (entry j w r)
Finds-entry_self k v j w r value same found =
    let key : j ≡ k = (text_beq_iff j k).0 same in
    subst (λ u. Finds k u (entry j w r)) found
      (subst (λ i. Finds k w (entry i w r)) (sym key) (r, find_text-entry_self k w r, value))

pub lines-Finds :
    (fs : List (Text × Text)) (k v : Text)
    → All IsLine fs
    → IsPlain k
    → lookup k fs ≡ some v
    → Finds k v (lines fs)
unfolding lines lookup find_text starts_with
lines-Finds [] k v h hk e = absurd (cc)
lines-Finds ((j, w) ∷ []) k v h hk e = elim (Bool-cases (text_beq j k)) [
  | inl same ↦
      Finds-entry_self k v j w (10 ∷ 125 ∷ 10 ∷ []) (value_of_brace w h.0.1 h.0.2) same
        (some_inj w v (sym (rw (lookup, same) refl) ∙ e))
  | inr other ↦ absurd (missing v (sym (rw (lookup, other) refl) ∙ e))
]
lines-Finds ((j, w) ∷ f ∷ fs) k v h hk e = elim (Bool-cases (text_beq j k)) [
  | inl same ↦
      Finds-entry_self k v j w (44 ∷ 10 ∷ lines (f ∷ fs)) (value_of_comma w _ h.0.1 h.0.2) same
        (some_inj w v (sym (rw (lookup, same) refl) ∙ e))
  | inr other ↦
      let (r, at, value) = lines-Finds (f ∷ fs) k v h.1 hk (sym (rw (lookup, other) refl) ∙ e) in
      (r, find_text-entry_other k j w (44 ∷ 10 ∷ lines (f ∷ fs)) hk h.0.0 h.0.1 other ∙ at, value)
]

pub extract_value-Finds : (k v s : Text) → IsPlain k → Finds k v s → extract_value s k ≡ v
unfolding extract_value find_char tail_of
extract_value-Finds k v s hk (r, at, value) =
    rw (extract_value, at, find_char-plain k (34 ∷ 58 ∷ 32 ∷ (v ++ r)) hk) value
