-- ===== src/Protocol/Codec/RoundTrip.antt =====
-- What the decoder makes of an encoded frame, and what it accepts.
use proto_msg_queue.Prelude.{
  ℕ, suc, ◌+◌, ◌^◌, ◌≤◌, ◌<◌, ◌≡◌, refl, sym, ap, ◌∙◌, some, List, [], ◌∷◌, ◌++◌, length, take,
  drop, get_or, arith, take-append, length-append, length-take, All,
}
use proto_msg_queue.Bytes.{IsByte, be32_bytes, be32, be32-sum, be32-be32_bytes}
use proto_msg_queue.Protocol.Frame.{
  Frame, IsCast, to_byte, of_byte, to_byte-of_byte, of_byte-IsCast, frame_magic, frame_version,
  frame_header_size, max_payload_size,
}
use proto_msg_queue.Protocol.Codec.{encode, try_decode, payload_length, word_at}

-- A frame that the protocol can carry.
pub record IsSendable (f : Frame) : Type 0 where
  pub magic : f.magic ≡ frame_magic
  pub version : f.version ≡ frame_version
  pub kind : IsCast f.msg_type
  pub fits : length f.payload ≤ max_payload_size

-- The frame as it arrives: the header's length is the payload's.
abbrev pub received : Frame → Frame
received f = record f { length = length f.payload }

pub length-encode : (f : Frame) → length (encode f) ≡ frame_header_size + length f.payload
unfolding encode
length-encode f = omega arith

-- The bytes of a frame that can be sent, whatever follows them, decode to that frame, with the
-- payload's size as its length; the bytes consumed are the header's and the payload's.
pub try_decode-encode :
    (f : Frame) (rest : List ℕ)
    → IsSendable f
    → try_decode (encode f ++ rest) ≡ (some (received f), frame_header_size + length f.payload)
unfolding try_decode encode
try_decode-encode f rest s = ground (
  arith,
  be32-be32_bytes f.magic (omega arith),
  be32-be32_bytes (length f.payload) (omega arith),
  take-append f.payload rest (length f.payload) refl,
  length-append f.payload rest,
)

be32_bytes-be32 :
    (b0 b1 b2 b3 : ℕ)
    → IsByte b0
    → IsByte b1
    → IsByte b2
    → IsByte b3
    → be32_bytes (be32 b0 b1 b2 b3) ≡ b0 ∷ b1 ∷ b2 ∷ b3 ∷ []
be32_bytes-be32 b0 b1 b2 b3 h0 h1 h2 h3 = rw (be32-sum b0 b1 b2 b3 h1 h2 h3) (ground arith)

be32-lt :
    (b0 b1 b2 b3 : ℕ) → IsByte b0 → IsByte b1 → IsByte b2 → IsByte b3 → be32 b0 b1 b2 b3 < 2 ^ 32
be32-lt b0 b1 b2 b3 h0 h1 h2 h3 = omega (arith, be32-sum b0 b1 b2 b3 h1 h2 h3)

-- What a successful decode says of the bytes: they are the encoding of the frame.
pub record Decodes (buffer : List ℕ) (f : Frame) (n : ℕ) : Type 0 where
  pub bytes : encode f ≡ take n buffer
  pub within : n ≤ length buffer
  pub consumed : n ≡ frame_header_size + length f.payload
  pub sendable : IsSendable f
  pub header : f.length ≡ length f.payload

-- What the tests of `try_decode` have established when it returns a frame.
pub record Accepted (buffer : List ℕ) (f : Frame) (n : ℕ) : Type 0 where
  pub has_header : frame_header_size ≤ length buffer
  pub magic : word_at buffer 0 ≡ frame_magic
  pub version : get_or buffer 4 0 ≡ frame_version
  pub limit : word_at buffer 6 ≤ max_payload_size
  pub whole : frame_header_size + word_at buffer 6 ≤ length buffer
  pub consumed : n ≡ frame_header_size + word_at buffer 6
  pub f_magic : f.magic ≡ frame_magic
  pub f_version : f.version ≡ frame_version
  pub f_kind : f.msg_type ≡ of_byte (get_or buffer 5 0)
  pub f_length : f.length ≡ word_at buffer 6
  pub f_payload : f.payload ≡ take (word_at buffer 6) (drop frame_header_size buffer)

pub try_decode-Accepted :
    (buffer : List ℕ) (f : Frame) (n : ℕ) → try_decode buffer ≡ (some f, n) → Accepted buffer f n
unfolding try_decode
try_decode-Accepted buffer f n e = ground arith

-- A buffer with a header, taken apart.
decode_at :
    (b0 b1 b2 b3 b4 b5 b6 b7 b8 b9 : ℕ) (rest : List ℕ) (f : Frame) (n : ℕ)
    → All IsByte (b0 ∷ b1 ∷ b2 ∷ b3 ∷ b4 ∷ b5 ∷ b6 ∷ b7 ∷ b8 ∷ b9 ∷ rest)
    → Accepted (b0 ∷ b1 ∷ b2 ∷ b3 ∷ b4 ∷ b5 ∷ b6 ∷ b7 ∷ b8 ∷ b9 ∷ rest) f n
    → Decodes (b0 ∷ b1 ∷ b2 ∷ b3 ∷ b4 ∷ b5 ∷ b6 ∷ b7 ∷ b8 ∷ b9 ∷ rest) f n
unfolding encode
decode_at b0 b1 b2 b3 b4 b5 b6 b7 b8 b9 rest f n h a = record {
  bytes = rw count (ground (arith, first, last, a.f_version, kind, a.f_payload));
  within = rw a.consumed a.whole;
  consumed = omega (arith, a.consumed, size);
  sendable = record {
    magic = a.f_magic;
    version = a.f_version;
    kind = rw a.f_kind (of_byte-IsCast b5 (omega arith));
    fits = omega (arith, size, a.limit);
  };
  header = omega (arith, a.f_length, size);
}
  where
    size : length f.payload ≡ be32 b6 b7 b8 b9
    size = rw a.f_payload (omega (arith, length-take (be32 b6 b7 b8 b9) rest, a.whole))

    count : n ≡ suc (suc (suc (suc (suc (suc (suc (suc (suc (suc (be32 b6 b7 b8 b9))))))))))
    count = omega (arith, a.consumed)

    first : be32_bytes f.magic ≡ b0 ∷ b1 ∷ b2 ∷ b3 ∷ []
    first =
        ap be32_bytes (a.f_magic ∙ sym a.magic)
        ∙ be32_bytes-be32 b0 b1 b2 b3 (omega arith) (omega arith) (omega arith) (omega arith)

    last : be32_bytes (payload_length f) ≡ b6 ∷ b7 ∷ b8 ∷ b9 ∷ []
    last =
        ap be32_bytes (omega (arith, size, a.limit))
        ∙ be32_bytes-be32 b6 b7 b8 b9 (omega arith) (omega arith) (omega arith) (omega arith)

    kind : to_byte f.msg_type ≡ b5
    kind = rw a.f_kind (to_byte-of_byte b5)

-- Where `try_decode` returns a frame for a buffer of bytes, the frame can be sent, its length is its
-- payload's, and the bytes consumed are its encoding.
pub try_decode-Decodes :
    (buffer : List ℕ) (f : Frame) (n : ℕ)
    → All IsByte buffer
    → try_decode buffer ≡ (some f, n)
    → Decodes buffer f n
try_decode-Decodes (b0 ∷ b1 ∷ b2 ∷ b3 ∷ b4 ∷ b5 ∷ b6 ∷ b7 ∷ b8 ∷ b9 ∷ rest) f n h e =
    decode_at b0 b1 b2 b3 b4 b5 b6 b7 b8 b9 rest f n h (try_decode-Accepted _ f n e)
try_decode-Decodes buffer f n h e =
    absurd (omega (arith, (try_decode-Accepted buffer f n e).has_header))
