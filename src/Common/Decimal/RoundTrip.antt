-- ===== src/Common/Decimal/RoundTrip.antt =====
-- `std::stoul` reads back what `std::to_string` writes.
use proto_msg_queue.Prelude.{
  ℕ, zero, suc, ◌+◌, ◌-◌, ◌*◌, ◌/◌, ◌%◌, ◌^◌, ◌≡◌, ◌<◌, refl, ap, ◌∙◌, Bool, true, false, some, [],
  ◌∷◌, ltb, leb, ◌&&◌, ◌==◌, arith, All, if_split, if_keeps, ltb→lt, lt→ltb,
}
use proto_msg_queue.Map.{Text}
use proto_msg_queue.Common.Decimal.{
  digits, to_string, is_digit, is_space, read_digits, in_range, read_signed, stoul,
}

-- How many numbers have that many digits
unfoldable room : ℕ → ℕ
room zero = 1
room (suc f) = 10 * room f

read_one :
    (seen : Bool) (acc d : ℕ) (cs : Text)
    → d < 10
    → read_digits seen acc ((48 + d) ∷ cs) ≡ read_digits true (acc * 10 + d) cs
unfolding read_digits is_digit
read_one seen acc d cs h =
    let test : (leb 48 (48 + d) && leb (48 + d) 57) ≡ true = ground arith in
    let value : 48 + d - 48 ≡ d = omega arith in rw (test, value) refl

whole : (n : ℕ) → n / 10 * 10 + n % 10 ≡ n
whole n = omega arith

read_last :
    (n : ℕ) (acc : Text)
    → n < 10
    → read_digits false 0 ((48 + n % 10) ∷ acc) ≡ read_digits true n acc
read_last n acc h =
    let value : 0 * 10 + n % 10 ≡ n = omega arith in
    read_one false 0 (n % 10) acc (omega arith) ∙ ap (λ k. read_digits true k acc) value

read_digits-digits :
    (f n : ℕ) (acc : Text)
    → n < room (suc f)
    → read_digits false 0 (digits (suc f) n acc) ≡ read_digits true n acc
unfolding digits room
read_digits-digits zero n acc h =
    if_keeps (λ t. read_digits false 0 t ≡ read_digits true n acc) (ltb n 10) _ _
      (read_last n acc (omega arith)) (read_last n acc (omega arith))
read_digits-digits (suc f) n acc h =
    if_split (λ t. read_digits false 0 t ≡ read_digits true n acc) (ltb n 10) _ _
      (λ small. read_last n acc (ltb→lt n 10 small))
      (λ large.
        read_digits-digits f (n / 10) ((48 + n % 10) ∷ acc) (omega arith)
        ∙ read_one true (n / 10) (n % 10) acc (omega arith)
        ∙ ap (λ k. read_digits true k acc) (whole n))

abbrev pub IsDigits : Text → Type 0
IsDigits = All (λ c. is_digit c ≡ true)

digits-IsDigits : (f n : ℕ) (acc : Text) → IsDigits acc → IsDigits (digits f n acc)
unfolding digits is_digit
digits-IsDigits zero n acc h = h
digits-IsDigits (suc f) n acc h =
    let d : (leb 48 (48 + n % 10) && leb (48 + n % 10) 57) ≡ true = ground arith in
    if_keeps IsDigits (ltb n 10) _ _ (d, h) (digits-IsDigits f (n / 10) _ (d, h))

pub to_string-IsDigits : (n : ℕ) → IsDigits (to_string n)
unfolding to_string
to_string-IsDigits n = digits-IsDigits 20 n [] tt

-- A digit is no blank and no sign.
digit_other :
    (c : ℕ) → is_digit c ≡ true → (is_space c ≡ false) × ((c == 45) ≡ false) × ((c == 43) ≡ false)
unfolding is_digit is_space
digit_other c h = ground arith

stoul_unsigned : (s : Text) → IsDigits s → stoul s ≡ in_range false (read_digits false 0 s)
unfolding stoul read_signed read_digits
stoul_unsigned [] h = refl
stoul_unsigned (c ∷ cs) h =
    let (space, minus, plus) = digit_other c h.0 in rw (space, minus, plus) refl

-- `std::stoul` reads every 64-bit number back from its decimal digits.
pub stoul-to_string : (n : ℕ) → n < 2 ^ 64 → stoul (to_string n) ≡ some n
unfolding to_string in_range read_digits room
stoul-to_string n h =
    stoul_unsigned (to_string n) (to_string-IsDigits n)
    ∙ ap (in_range false) (read_digits-digits 19 n [] (omega arith))
    ∙ rw (lt→ltb n (2 ^ 64) h) refl
