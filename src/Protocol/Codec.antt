-- ===== src/Protocol/Codec.antt =====
-- src/protocol/frame_codec.cpp: frames to bytes and back. A buffer is the list of its bytes; an
-- out-parameter is a second result.
pub mod RoundTrip
pub mod Buffers
use proto_msg_queue.Prelude.{
  ℕ, zero, suc, ◌+◌, ◌%◌, ◌^◌, Bool, true, false, not, Option, none, some, List, [], ◌∷◌, ◌++◌,
  length, get_or, set, take, drop, ltb, leb, ◌==◌, if◌then◌else◌,
}
use proto_msg_queue.Bytes.{byte_at, be32_bytes, be32}
use proto_msg_queue.Protocol.Frame.{
  Frame, default_frame, FrameMessageType, to_byte, of_byte, frame_magic, frame_version,
  frame_header_size, max_payload_size,
}

-- `static_cast<uint32_t>(frame.payload.size())`
abbrev pub payload_length : Frame → ℕ
payload_length f = length f.payload % 2 ^ 32

-- `FrameCodec::Encode`: the `push_back` calls in order, then the payload.
unfoldable pub encode : Frame → List ℕ
encode f =
    be32_bytes f.magic
    ++ f.version ∷ to_byte f.msg_type ∷ (be32_bytes (payload_length f) ++ f.payload)

-- `buffer[offset++] = b` for each byte in turn: the new offset and the buffer.
unfoldable pub store_bytes : List ℕ → ℕ → List ℕ → ℕ × List ℕ
store_bytes [] offset buffer = (offset, buffer)
store_bytes (b ∷ bs) offset buffer = store_bytes bs (offset + 1) (set buffer offset b)

-- `FrameCodec::EncodeHeaderToBuffer`: the bytes written, and the buffer after the writes.
unfoldable pub encode_header_to_buffer : Frame → List ℕ → ℕ × List ℕ
unfolding store_bytes
encode_header_to_buffer f buffer =
    if ltb (length buffer) frame_header_size
    then (0, buffer)
    else store_bytes
        (be32_bytes f.magic ++ f.version ∷ to_byte f.msg_type ∷ be32_bytes (payload_length f)) 0
        buffer

-- The `uint32_t` at `buffer[i]`, by the four-byte expression of the source.
abbrev pub word_at : List ℕ → ℕ → ℕ
word_at buffer i =
    be32 (get_or buffer i 0) (get_or buffer (i + 1) 0) (get_or buffer (i + 2) 0)
      (get_or buffer (i + 3) 0)

-- `FrameCodec::TryDecode`: the frame, and `consumed_bytes`.
unfoldable pub try_decode : List ℕ → Option Frame × ℕ
try_decode buffer =
    if ltb (length buffer) frame_header_size
    then (none, 0)
    else let magic = word_at buffer 0 in
      if not (magic == frame_magic)
      then (none, 0)
      else let version : ℕ = get_or buffer 4 0 in
        if not (version == frame_version)
        then (none, 0)
        else let msg_type = of_byte (get_or buffer 5 0) in
          let len = word_at buffer 6 in
          if ltb max_payload_size len
          then (none, 0)
          else if ltb (length buffer) (frame_header_size + len)
          then (none, 0)
          else (
            some (record {
              magic = magic;
              version = version;
              msg_type = msg_type;
              length = len;
              payload = take len (drop frame_header_size buffer);
            }),
            frame_header_size + len,
          )

-- `FrameCodec::HasCompleteFrame`
unfoldable pub has_complete_frame : List ℕ → Bool
has_complete_frame buffer =
    if ltb (length buffer) frame_header_size
    then false
    else leb (frame_header_size + word_at buffer 6) (length buffer)

-- `FrameCodec::PeekPayloadLength`
unfoldable pub peek_payload_length : List ℕ → Option ℕ
peek_payload_length buffer =
    if ltb (length buffer) frame_header_size then none else some (word_at buffer 6)
