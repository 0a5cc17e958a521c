-- ===== src/Protocol/Streaming/States.antt =====
-- What the codec's buffer holds in each state of its machine, and that more bytes keep it.
use proto_msg_queue.Prelude.{
  ℕ, ◌≤◌, ◌≡◌, refl, sym, List, subst, length, get_or, arith, length-append, get_or-append,
}
use proto_msg_queue.Protocol.Frame.{
  of_byte, frame_magic, frame_version, frame_header_size, max_payload_size,
}
use proto_msg_queue.Protocol.Codec.{word_at}
use proto_msg_queue.Protocol.Streaming.{
  ParseState, waiting_magic, waiting_header, waiting_payload, StreamingFrameCodec, append_data,
}
use proto_msg_queue.Protocol.Streaming.Scan.{HasMagic, HasMagic-append, word_at-append}

-- What `ParseHeader` has left behind when the codec waits for the payload.
pub record HeaderRead (c : StreamingFrameCodec) : Type 0 where
  pub long : frame_header_size ≤ length c.buffer
  pub magic : word_at c.buffer 0 ≡ frame_magic
  pub version : get_or c.buffer 4 0 ≡ frame_version
  pub limit : word_at c.buffer 6 ≤ max_payload_size
  pub payload_length : c.payload_length ≡ word_at c.buffer 6
  pub f_magic : c.partial_frame.magic ≡ frame_magic
  pub f_version : c.partial_frame.version ≡ frame_version
  pub f_kind : c.partial_frame.msg_type ≡ of_byte (get_or c.buffer 5 0)
  pub f_length : c.partial_frame.length ≡ word_at c.buffer 6

-- What each state of the machine promises about the buffer.
abbrev pub InState : ParseState → StreamingFrameCodec → Type 0
InState waiting_magic c = Unit {0}
InState waiting_header c = HasMagic c.buffer
InState waiting_payload c = HeaderRead c

abbrev pub IsGood : StreamingFrameCodec → Type 0
IsGood c = InState c.state c

pub IsGood-at : (k : ParseState) (c : StreamingFrameCodec) → c.state ≡ k → InState k c → IsGood c
IsGood-at k c e h = subst (λ k. InState k c) (sym e) h

pub IsGood-start : (c : StreamingFrameCodec) → c.state ≡ waiting_magic → IsGood c
IsGood-start c e = IsGood-at waiting_magic c e tt

-- What has been read of a header stays read when more bytes come.
HeaderRead-append :
    (bytes : List ℕ) (c : StreamingFrameCodec) → HeaderRead c → HeaderRead (append_data bytes c)
unfolding append_data
HeaderRead-append bytes c h = ground (
  arith,
  length-append c.buffer bytes,
  word_at-append c.buffer bytes 0,
  word_at-append c.buffer bytes 6,
  get_or-append c.buffer bytes 4 0,
  get_or-append c.buffer bytes 5 0,
)

pub IsGood-append :
    (bytes : List ℕ) (c : StreamingFrameCodec) → IsGood c → IsGood (append_data bytes c)
unfolding append_data
IsGood-append bytes c g = go c.state refl g
  where
    go : (k : ParseState) → c.state ≡ k → InState k c → IsGood (append_data bytes c)
    go waiting_magic e h = IsGood-at waiting_magic _ e tt
    go waiting_header e h = IsGood-at waiting_header _ e (HasMagic-append c.buffer bytes h)
    go waiting_payload e h = IsGood-at waiting_payload _ e (HeaderRead-append bytes c h)
