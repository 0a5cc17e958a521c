-- ===== src/Common/ConfigFile/Written.antt =====
-- The text that `SaveToFile` of src/common/config.cpp writes: names and values with no character that
-- the reader looks for, and no comment.
use native.Mathlib.Nat.{mod-eq_of_lt}
use proto_msg_queue.Prelude.{
  ℕ, ◌^◌, ◌≡◌, ◌<◌, refl, Bool, true, false, not, ◌&&◌, some, List, [], ◌∷◌, All, All-append,
  All-weaken, arith, is_empty, ◌==◌, Bool-cases, inl, inr,
}
use proto_msg_queue.Map.{Text, text_eq, codes}
use proto_msg_queue.Common.Decimal.{to_string, stoul, is_digit}
use proto_msg_queue.Common.Decimal.RoundTrip.{to_string-IsDigits, stoul-to_string}
use proto_msg_queue.Common.ConfigFile.{
  is_blank, trim_front, trim_back, trim, parse_bool, narrowed, parse_uint, drop_comments, flag_text,
  entry, lines,
}
use proto_msg_queue.Common.ConfigFile.Search.{trim-plain, plain, IsPlain, IsLine}

-- No slash, no comment
abbrev pub NoSlash : Text → Type 0
NoSlash = All (λ c. (c == 47) ≡ false)

pub drop_comments-NoSlash :
    (q : Bool) (p : ℕ) (s : Text) → NoSlash s → drop_comments q false p s ≡ s
unfolding drop_comments
drop_comments-NoSlash q p [] h = refl
drop_comments-NoSlash q p (c ∷ s) h =
    ground (arith, drop_comments-NoSlash q c s h.1, drop_comments-NoSlash (not q) c s h.1, h.0)

digit_plain : (c : ℕ) → is_digit c ≡ true → plain c ≡ true
unfolding is_digit
digit_plain c h = ground arith

to_string-IsPlain : (n : ℕ) → IsPlain (to_string n)
to_string-IsPlain n = All-weaken _ _ (to_string n) digit_plain (to_string-IsDigits n)

stoul_empty : (s : Text) (n : ℕ) → is_empty s ≡ true → stoul s ≡ some n → ⊥
unfolding stoul
stoul_empty [] n h e = cc
stoul_empty (c ∷ s) n h e = cc

pub to_string_some : (n : ℕ) → n < 2 ^ 64 → is_empty (to_string n) ≡ false
to_string_some n h = elim (Bool-cases (is_empty (to_string n))) [
  | inl e ↦ absurd (stoul_empty (to_string n) n e (stoul-to_string n h))
  | inr e ↦ e
]

pub parse_uint-to_string :
    (modulus n out : ℕ) → n < modulus → n < 2 ^ 64 → parse_uint modulus (to_string n) out ≡ n
unfolding parse_uint narrowed
parse_uint-to_string modulus n out h k =
    rw (trim-plain (to_string n) (to_string-IsPlain n), stoul-to_string n k) (mod-eq_of_lt h)

pub parse_bool-flag_text : (b out : Bool) → parse_bool (flag_text b) out ≡ b
unfolding parse_bool flag_text trim trim_front trim_back is_blank
parse_bool-flag_text true out = refl
parse_bool-flag_text false out = refl

-- A test for a plain text, to compute on the names
unfoldable pub plain_text : Text → Bool
plain_text [] = true
plain_text (c ∷ s) = let rest = plain_text s in plain c && rest

and_both : (a b : Bool) → (a && b) ≡ true → (a ≡ true) × (b ≡ true)
and_both a b h = ground arith

pub plain_text-IsPlain : (s : Text) → plain_text s ≡ true → IsPlain s
unfolding plain_text
plain_text-IsPlain [] h = tt
plain_text-IsPlain (c ∷ s) h =
    let (one, others) = and_both (plain c) (plain_text s) h in (one, plain_text-IsPlain s others)

pub flag-IsLine : (k : Text) (b : Bool) → plain_text k ≡ true → IsLine (k, flag_text b)
unfolding flag_text plain_text
flag-IsLine k true h = (plain_text-IsPlain k h, plain_text-IsPlain (codes "true") refl, refl)
flag-IsLine k false h = (plain_text-IsPlain k h, plain_text-IsPlain (codes "false") refl, refl)

pub number-IsLine : (k : Text) (n : ℕ) → plain_text k ≡ true → n < 2 ^ 64 → IsLine (k, to_string n)
number-IsLine k n h small = (plain_text-IsPlain k h, to_string-IsPlain n, to_string_some n small)

plain_NoSlash : (s : Text) → IsPlain s → NoSlash s
plain_NoSlash s h = All-weaken _ _ s (λ c e. ground (arith, e)) h

entry-NoSlash : (k v rest : Text) → IsPlain k → IsPlain v → NoSlash rest → NoSlash (entry k v rest)
unfolding entry
entry-NoSlash k v rest hk hv h = (
  refl,
  (
    refl,
    (
      refl,
      All-append _ k _ (plain_NoSlash k hk)
          (refl, (refl, (refl, All-append _ v rest (plain_NoSlash v hv) h))),
    ),
  ),
)

pub lines-NoSlash : (fs : List (Text × Text)) → All IsLine fs → NoSlash (lines fs)
unfolding lines
lines-NoSlash [] h = (refl, (refl, tt))
lines-NoSlash ((k, v) ∷ []) h = entry-NoSlash k v _ h.0.0 h.0.1 (refl, (refl, (refl, tt)))
lines-NoSlash ((k, v) ∷ f ∷ fs) h =
    entry-NoSlash k v _ h.0.0 h.0.1 (refl, (refl, lines-NoSlash (f ∷ fs) h.1))
