-- ===== src/Common/Decimal.antt =====
-- Decimal numbers as the C++ library writes and reads them: `std::to_string`, `operator<<`, and
-- `std::stoul` and `std::stoull`, which are the same on 64-bit numbers.
pub mod RoundTrip
use proto_msg_queue.Prelude.{
  ℕ, zero, suc, ◌+◌, ◌-◌, ◌*◌, ◌/◌, ◌%◌, ◌^◌, ◌≡◌, ◌<◌, ◌≤◌, refl, sym, ap, ◌∙◌, Bool, true, false,
  ◌&&◌, ◌||◌, Option, none, some, List, [], ◌∷◌, ◌++◌, leb, ltb, ◌==◌, if◌then◌else◌, Bool-cases,
  inl, inr, arith,
}
use proto_msg_queue.Map.{Text}

-- The decimal digits of a number, before those that are written already; twenty are enough for a
-- 64-bit number.
unfoldable pub digits : ℕ → ℕ → Text → Text
digits zero n acc = acc
digits (suc left) n acc =
    let rest = digits left (n / 10) ((48 + n % 10) ∷ acc) in
    if ltb n 10 then (48 + n % 10) ∷ acc else rest

-- `std::to_string`, and `operator<<` on a stream
unfoldable pub to_string : ℕ → Text
unfolding digits
to_string n = digits 20 n []

unfoldable pub is_digit : ℕ → Bool
is_digit c = leb 48 c && leb c 57

-- `isspace`
unfoldable pub is_space : ℕ → Bool
is_space c = c == 32 || leb 9 c && leb c 13

-- The number that the digits at the front of a text make, behind those read already; `none` where
-- there is no digit.
unfoldable pub read_digits : Bool → ℕ → Text → Option ℕ
unfolding is_digit
read_digits seen acc [] = if seen then some acc else none
read_digits seen acc (c ∷ cs) =
    let more = read_digits true (acc * 10 + (c - 48)) cs in
    if is_digit c then more else if seen then some acc else none

-- A number past 64 bits is out of range; a negative one is counted from 2 ^ 64 down.
unfoldable pub in_range : Bool → Option ℕ → Option ℕ
in_range negative none = none
in_range negative (some n) =
    if ltb n (2 ^ 64) then some (if negative then (2 ^ 64 - n) % 2 ^ 64 else n) else none

-- The number behind an optional sign
unfoldable pub read_signed : Text → Option ℕ
unfolding in_range
read_signed [] = none
read_signed (c ∷ cs) =
    if c == 45
    then in_range true (read_digits false 0 cs)
    else if c == 43
    then in_range false (read_digits false 0 cs)
    else in_range false (read_digits false 0 (c ∷ cs))

-- `std::stoul`, `none` where it throws.
unfoldable pub stoul : Text → Option ℕ
unfolding is_space
stoul [] = none
stoul (c ∷ cs) = let rest = stoul cs in if is_space c then rest else read_signed (c ∷ cs)
