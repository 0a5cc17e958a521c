-- ===== src/Protocol/Codec/Buffers.antt =====
-- The decoder against the buffer around a frame: its error path, the test for a complete frame,
-- and the header that the zero-copy path writes.
use proto_msg_queue.Prelude.{
  is_some, ℕ, ◌+◌, ◌≤◌, ◌<◌, ◌≡◌, none, some, List, ◌∷◌, ◌++◌, length, take, drop, get_or, arith,
  inr, ◌⊎◌,
}
use proto_msg_queue.Protocol.Frame.{
  Frame, frame_magic, frame_version, frame_header_size, max_payload_size,
}
use proto_msg_queue.Protocol.Codec.{
  encode, encode_header_to_buffer, try_decode, has_complete_frame, word_at,
}

-- A decode that fails consumes nothing; one that succeeds consumes the header and the frame's
-- length, which the buffer has.
pub try_decode_consumes :
    (buffer : List ℕ)
    → (((try_decode buffer).0 ≡ none) × ((try_decode buffer).1 ≡ 0))
      ⊎ ((f : Frame) × ((try_decode buffer).0 ≡ some f)
          × ((try_decode buffer).1 ≡ frame_header_size + f.length)
          × ((try_decode buffer).1 ≤ length buffer))
unfolding try_decode
try_decode_consumes buffer = ground arith

-- A good magic and version, and a lawful length.
pub record HasHeader (buffer : List ℕ) : Type 0 where
  pub magic : word_at buffer 0 ≡ frame_magic
  pub version : get_or buffer 4 0 ≡ frame_version
  pub limit : word_at buffer 6 ≤ max_payload_size

-- Behind such a header `HasCompleteFrame` is the test that `TryDecode` succeeds.
pub has_complete_frame-try_decode :
    (buffer : List ℕ) → HasHeader buffer → has_complete_frame buffer ≡ is_some (try_decode buffer).0
unfolding has_complete_frame try_decode
has_complete_frame-try_decode buffer h = ground arith

-- The header goes over the first ten bytes of a buffer that has room, and what follows is kept:
-- put before the payload it makes the bytes of `Encode`. A smaller buffer is left alone.
pub encode_header_to_buffer_lem :
    (f : Frame) (buffer : List ℕ)
    → ((length buffer < frame_header_size) × (encode_header_to_buffer f buffer ≡ (0, buffer)))
      ⊎ (((encode_header_to_buffer f buffer).0 ≡ frame_header_size)
          × (take frame_header_size (encode_header_to_buffer f buffer).1 ++ f.payload ≡ encode f)
          × (drop frame_header_size (encode_header_to_buffer f buffer).1
              ≡ drop frame_header_size buffer))
unfolding encode_header_to_buffer encode
encode_header_to_buffer_lem f (a ∷ b ∷ c ∷ d ∷ e ∷ g ∷ h ∷ i ∷ j ∷ k ∷ rest) =
    inr (ground arith, ground arith, ground arith)
encode_header_to_buffer_lem f buffer = ground arith
