-- ===== src/Protocol/Frame.antt =====
-- src/protocol/frame_protocol.h: the frame, its constants and its message types, and the payload
-- limit of src/common/types.h.
use proto_msg_queue.Prelude.{ℕ, ◌*◌, ◌≡◌, ◌<◌, arith, ◌==◌, if◌then◌else◌, List, []}

abbrev pub frame_magic : ℕ
frame_magic = 0xDEADBEEF

abbrev pub frame_version : ℕ
frame_version = 1

abbrev pub frame_header_size : ℕ
frame_header_size = 10

abbrev pub max_payload_size : ℕ
max_payload_size = 16 * 1024 * 1024

-- `enum class FrameMessageType : uint8_t`. A cast makes a value of any byte, so those with no
-- enumerator are values too.
pub data FrameMessageType : Type 0 where
  unknown publish subscribe unsubscribe pull ack response push : FrameMessageType
  batch_publish batch_push ping pong admin : FrameMessageType
  unnamed : ℕ → FrameMessageType

-- `static_cast<uint8_t>(msg_type)`
unfoldable pub to_byte : FrameMessageType → ℕ
to_byte unknown = 0
to_byte publish = 1
to_byte subscribe = 2
to_byte unsubscribe = 3
to_byte pull = 4
to_byte ack = 5
to_byte response = 6
to_byte push = 7
to_byte batch_publish = 9
to_byte batch_push = 10
to_byte ping = 11
to_byte pong = 12
to_byte admin = 13
to_byte (unnamed b) = b

-- `static_cast<FrameMessageType>(byte)`
unfoldable pub of_byte : ℕ → FrameMessageType
of_byte b =
    if b == 0
    then unknown
    else if b == 1
    then publish
    else if b == 2
    then subscribe
    else if b == 3
    then unsubscribe
    else if b == 4
    then pull
    else if b == 5
    then ack
    else if b == 6
    then response
    else if b == 7
    then push
    else if b == 9
    then batch_publish
    else if b == 10
    then batch_push
    else if b == 11
    then ping
    else if b == 12
    then pong
    else if b == 13
    then admin
    else unnamed b

pub to_byte-of_byte : (b : ℕ) → to_byte (of_byte b) ≡ b
unfolding to_byte of_byte
to_byte-of_byte b = ground arith

-- A value that a cast from a byte can give.
pub record IsCast (t : FrameMessageType) : Type 0 where
  pub fits : to_byte t < 256
  pub named : of_byte (to_byte t) ≡ t

pub of_byte-IsCast : (b : ℕ) → b < 256 → IsCast (of_byte b)
of_byte-IsCast b h = ground (arith, to_byte-of_byte b)

-- `struct Frame`
pub record Frame : Type 0 where
  pub magic : ℕ
  pub version : ℕ
  pub msg_type : FrameMessageType
  pub length : ℕ
  pub payload : List ℕ

-- `Frame{}`
abbrev pub default_frame : Frame
default_frame = record {
  magic = frame_magic;
  version = frame_version;
  msg_type = unknown;
  length = 0;
  payload = [];
}
