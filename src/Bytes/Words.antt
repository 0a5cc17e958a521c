-- ===== src/Bytes/Words.antt =====
-- The loops that write a word and read it back.
use Prim.Native.Nat.{bit_or}
use native.Mathlib.Numerals.{towards_suc}
use native.Mathlib.Nat.{mod-lt, mod-add-div, mod-eq_of_lt, pow-suc, add-mul-mod_self_right}
use proto_msg_queue.Prelude.{
  ℕ, zero, suc, ◌+◌, ◌*◌, ◌/◌, ◌%◌, ◌^◌, ◌≤◌, ◌<◌, ◌≡◌, refl, ap, ◌∙◌, arith, All, length,
}
use proto_msg_queue.Bytes.{IsByte, byte_at, be_bytes, be_read}
use proto_msg_queue.Bytes.Bits.{bit_or-disjoint}

pow_byte : (i : ℕ) → 2 ^ (suc i * 8) ≡ 2 ^ (i * 8) * 256
pow_byte i = let e : suc i * 8 ≡ i * 8 + 8 = omega arith in rw e (simp towards_suc (omega arith))

pub two-pow-pos : (k : ℕ) → 0 < 2 ^ k
two-pow-pos zero = omega arith
two-pow-pos (suc k) = omega (arith, two-pow-pos k, pow-suc 2 k)

-- A factor of at least one does not make a product smaller.
le-mul_pos : (a p : ℕ) → 0 < p → a ≤ a * p
le-mul_pos a p h = grind arith

mod_unique : (x k m : ℕ) → x < m → (x + k * m) % m ≡ x
mod_unique x k m h = add-mul-mod_self_right x k m ∙ mod-eq_of_lt h

mod-byte : (w p : ℕ) → 0 < p → w % (p * 256) ≡ w / p % 256 * p + w % p
mod-byte w p h =
    let split : w ≡ w / p % 256 * p + w % p + w / p / 256 * (p * 256) =
      grind (arith, mod-add-div w p, ap (λ t. t * p) (mod-add-div (w / p) 256)) in
    let digit : w / p % 256 * p ≤ 255 * p = grind arith in
    let low : w / p % 256 * p + w % p < p * 256 = omega (arith, mod-lt w h, digit) in
    ap (λ t. t % (p * 256)) split ∙ mod_unique (w / p % 256 * p + w % p) (w / p / 256) (p * 256) low

pub All-be_bytes : (n w : ℕ) → All IsByte (be_bytes n w)
unfolding be_bytes
All-be_bytes zero w = tt
All-be_bytes (suc n) w = (omega arith, All-be_bytes n w)

pub length-be_bytes : (n w : ℕ) → length (be_bytes n w) ≡ n
unfolding be_bytes
length-be_bytes zero w = refl
length-be_bytes (suc n) w = ap suc (length-be_bytes n w)

pub be_read-be_bytes :
    (bits n acc w : ℕ)
    → (acc + 1) * 2 ^ (n * 8) ≤ 2 ^ bits
    → be_read bits acc (be_bytes n w) ≡ acc * 2 ^ (n * 8) + w % 2 ^ (n * 8)
unfolding be_bytes be_read
be_read-be_bytes bits zero acc w h = omega arith
be_read-be_bytes bits (suc n) acc w h =
    let p = 2 ^ (n * 8) in
    let b = byte_at w (n * 8) in
    let room : (acc + 1) * 256 * p ≤ 2 ^ bits =
      omega (arith, h, ap (λ t. (acc + 1) * t) (pow_byte n)) in
    let pos : 0 < p = two-pow-pos (n * 8) in
    let fits : acc * 256 < 2 ^ bits = omega (arith, room, le-mul_pos ((acc + 1) * 256) p pos) in
    let joined : bit_or (acc * 256 % 2 ^ bits) b ≡ acc * 256 + b =
      rw (mod-eq_of_lt fits) (bit_or-disjoint 8 acc b (omega arith)) in
    let next : (acc * 256 + b + 1) * p ≤ 2 ^ bits = grind (arith, room) in
    let high : acc * 2 ^ (suc n * 8) ≡ acc * (p * 256) = ap (λ t. acc * t) (pow_byte n) in
    let low : w % 2 ^ (suc n * 8) ≡ w / p % 256 * p + w % p =
      ap (λ t. w % t) (pow_byte n) ∙ mod-byte w p pos in
    ap (λ t. be_read bits t (be_bytes n w)) joined
    ∙ be_read-be_bytes bits n (acc * 256 + b) w next
    ∙ omega (arith, high, low)
