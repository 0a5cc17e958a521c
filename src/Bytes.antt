-- ===== src/Bytes.antt =====
-- Big-endian words, as the frame codec, the ring buffer and the store write and read them:
-- the byte expressions of src/protocol/frame_codec.cpp, src/ring_buffer/spsc_ring_buffer.cpp and
-- src/storage/memory_message_store.cpp. A byte is a number below 256.
mod Bits
pub mod Words
use Prim.Native.Nat.{bit_or}
use Bits.{bit_or-disjoint}
use native.Mathlib.Nat.{pow-suc}
use proto_msg_queue.Prelude.{
  ℕ, zero, suc, ◌+◌, ◌*◌, ◌/◌, ◌%◌, ◌^◌, ◌≤◌, ◌<◌, ◌≡◌, refl, ap, List, [], ◌∷◌, ◌++◌, arith, All,
  length,
}

abbrev pub IsByte : ℕ → Type 0
IsByte b = b < 256

-- `static_cast<uint8_t>((w >> s) & 0xFF)`
abbrev pub byte_at : ℕ → ℕ → ℕ
byte_at w s = w / 2 ^ s % 256

-- The four `push_back` calls that write a `uint32_t`, highest byte first.
abbrev pub be32_bytes : ℕ → List ℕ
be32_bytes w = byte_at w 24 ∷ byte_at w 16 ∷ byte_at w 8 ∷ byte_at w 0 ∷ []

-- `(b0 << 24) | (b1 << 16) | (b2 << 8) | b3` over `uint32_t`. No shift of a byte leaves the word.
unfoldable pub be32 : ℕ → ℕ → ℕ → ℕ → ℕ
be32 b0 b1 b2 b3 = bit_or (bit_or (bit_or (b0 * 2 ^ 24) (b1 * 2 ^ 16)) (b2 * 2 ^ 8)) b3

pub be32-sum :
    (b0 b1 b2 b3 : ℕ)
    → IsByte b1
    → IsByte b2
    → IsByte b3
    → be32 b0 b1 b2 b3 ≡ b0 * 16777216 + b1 * 65536 + b2 * 256 + b3
unfolding be32
be32-sum b0 b1 b2 b3 h1 h2 h3 =
    let one : bit_or (b0 * 2 ^ 24) (b1 * 2 ^ 16) ≡ (b0 * 256 + b1) * 2 ^ 16 =
      omega (arith, bit_or-disjoint 24 b0 (b1 * 2 ^ 16) (omega arith)) in
    let two : bit_or ((b0 * 256 + b1) * 2 ^ 16) (b2 * 2 ^ 8)
        ≡ ((b0 * 256 + b1) * 256 + b2) * 2 ^ 8 =
      omega (arith, bit_or-disjoint 16 (b0 * 256 + b1) (b2 * 2 ^ 8) (omega arith)) in
    rw (one, two) (omega (arith, bit_or-disjoint 8 ((b0 * 256 + b1) * 256 + b2) b3 (omega arith)))

-- A word is read back from the bytes that it was written to.
pub be32-be32_bytes :
    (w : ℕ) → w < 2 ^ 32 → be32 (byte_at w 24) (byte_at w 16) (byte_at w 8) (byte_at w 0) ≡ w
be32-be32_bytes w h = omega (
  arith,
  be32-sum (byte_at w 24) (byte_at w 16) (byte_at w 8) (byte_at w 0) (omega arith) (omega arith)
      (omega arith),
)

-- `for (i = n - 1; i >= 0; --i) push_back((w >> (i * 8)) & 0xFF)`
unfoldable pub be_bytes : ℕ → ℕ → List ℕ
be_bytes zero w = []
be_bytes (suc i) w = byte_at w (i * 8) ∷ be_bytes i w

-- `for (...) acc = (acc << 8) | b` over an unsigned word of `bits` bits, a byte at a time.
unfoldable pub be_read : ℕ → ℕ → List ℕ → ℕ
be_read bits acc [] = acc
be_read bits acc (b ∷ bs) = be_read bits (bit_or (acc * 2 ^ 8 % 2 ^ bits) b) bs
