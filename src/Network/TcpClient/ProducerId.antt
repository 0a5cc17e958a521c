-- ===== src/Network/TcpClient/ProducerId.antt =====
-- `GenerateProducerId` of src/network/tcp_client.cpp: a name from two random 64-bit numbers.
use proto_msg_queue.Prelude.{
  ℕ, zero, suc, ◌+◌, ◌*◌, ◌/◌, ◌%◌, ◌^◌, ◌≡◌, ◌<◌, refl, sym, ap, ◌∙◌, [], ◌∷◌, ◌++◌, length,
  length-append, ltb, arith, if◌then◌else◌, append_inj, get_or,
}
use proto_msg_queue.Map.{Text}

-- A hexadecimal digit
unfoldable pub hex_digit : ℕ → ℕ
hex_digit d = if ltb d 10 then 48 + d else 87 + d

-- `std::hex << std::setfill('0') << std::setw(w)` of a number that has `w` digits at most
unfoldable pub hex_digits : ℕ → ℕ → Text
hex_digits zero n = []
hex_digits (suc w) n = hex_digits w (n / 16) ++ hex_digit (n % 16) ∷ []

-- `GenerateProducerId`
unfoldable pub generate_producer_id : ℕ → ℕ → Text
generate_producer_id p1 p2 =
    hex_digits 8 (p1 / 2 ^ 32)
    ++ (hex_digits 4 (p1 / 2 ^ 16 % 2 ^ 16)
        ++ (hex_digits 4 (p1 % 2 ^ 16)
            ++ (hex_digits 4 (p2 / 2 ^ 48 % 2 ^ 16) ++ hex_digits 12 (p2 % 2 ^ 48))))

length-hex_digits : (w n : ℕ) → length (hex_digits w n) ≡ w
unfolding hex_digits
length-hex_digits zero n = refl
length-hex_digits (suc w) n =
    length-append (hex_digits w (n / 16)) (hex_digit (n % 16) ∷ [])
    ∙ omega (arith, length-hex_digits w (n / 16))

hex_digit-inj : (a b : ℕ) → a < 16 → b < 16 → hex_digit a ≡ hex_digit b → a ≡ b
unfolding hex_digit
hex_digit-inj a b ha hb e = ground arith

-- How many numbers have that many digits
unfoldable pub wide : ℕ → ℕ
wide zero = 1
wide (suc w) = 16 * wide w

hex_digits-inj : (w a b : ℕ) → a < wide w → b < wide w → hex_digits w a ≡ hex_digits w b → a ≡ b
unfolding hex_digits wide
hex_digits-inj zero a b ha hb e = omega arith
hex_digits-inj (suc w) a b ha hb e =
    let (high, low) =
      append_inj (hex_digits w (a / 16)) _ (hex_digits w (b / 16)) _
        (length-hex_digits w (a / 16) ∙ sym (length-hex_digits w (b / 16))) e in
    let upper : a / 16 ≡ b / 16 =
      hex_digits-inj w (a / 16) (b / 16) (omega arith) (omega arith) high in
    let digit : hex_digit (a % 16) ≡ hex_digit (b % 16) = ap (λ l. get_or l 0 0) low in
    let lower : a % 16 ≡ b % 16 =
      hex_digit-inj (a % 16) (b % 16) (omega arith) (omega arith) digit in
    omega arith

-- The digits of a number at the front of a text determine the number and the rest.
split_digits :
    (w a b : ℕ) (s t : Text)
    → a < wide w
    → b < wide w
    → hex_digits w a ++ s ≡ hex_digits w b ++ t
    → (a ≡ b) × (s ≡ t)
split_digits w a b s t ha hb e =
    let (front, rest) =
      append_inj (hex_digits w a) s (hex_digits w b) t
        (length-hex_digits w a ∙ sym (length-hex_digits w b)) e in
    (hex_digits-inj w a b ha hb front, rest)

length-generate_producer_id : (p1 p2 : ℕ) → length (generate_producer_id p1 p2) ≡ 32
unfolding generate_producer_id
length-generate_producer_id p1 p2 = simp (length-append, length-hex_digits)

-- Two producers have the same name only if both of their random 64-bit numbers agree, and every name
-- has 32 characters.
pub generate_producer_id_lem :
    (p1 p2 q1 q2 : ℕ)
    → p1 < 2 ^ 64
    → p2 < 2 ^ 64
    → q1 < 2 ^ 64
    → q2 < 2 ^ 64
    → generate_producer_id p1 p2 ≡ generate_producer_id q1 q2
    → (p1 ≡ q1) × (p2 ≡ q2) × (length (generate_producer_id p1 p2) ≡ 32)
unfolding generate_producer_id wide
generate_producer_id_lem p1 p2 q1 q2 hp1 hp2 hq1 hq2 e =
    let (a, e1) = split_digits 8 (p1 / 2 ^ 32) (q1 / 2 ^ 32) _ _ (omega arith) (omega arith) e in
    let (b, e2) =
      split_digits 4 (p1 / 2 ^ 16 % 2 ^ 16) (q1 / 2 ^ 16 % 2 ^ 16) _ _ (omega arith) (omega arith)
        e1 in
    let (c, e3) = split_digits 4 (p1 % 2 ^ 16) (q1 % 2 ^ 16) _ _ (omega arith) (omega arith) e2 in
    let (d, e4) =
      split_digits 4 (p2 / 2 ^ 48 % 2 ^ 16) (q2 / 2 ^ 48 % 2 ^ 16) _ _ (omega arith) (omega arith)
        e3 in
    let f = hex_digits-inj 12 (p2 % 2 ^ 48) (q2 % 2 ^ 48) (omega arith) (omega arith) e4 in
    (omega arith, omega arith, length-generate_producer_id p1 p2)
