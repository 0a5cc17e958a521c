-- ===== src/Protocol/Streaming.antt =====
-- src/protocol/streaming_frame_codec.cpp: frames out of a byte stream that comes in pieces. A
-- method returns its result and the new codec. `erase` of the first `n` bytes is `drop n`.
pub mod Terminates
pub mod Scan
pub mod Search
pub mod States
pub mod Refine
pub mod Resync
use proto_msg_queue.Prelude.{
  ℕ, zero, suc, ◌+◌, ◌-◌, ◌*◌, Bool, true, false, not, Option, none, some, List, [], ◌∷◌, ◌++◌,
  length, get_or, take, drop, ltb, ◌==◌, if◌then◌else◌,
}
use proto_msg_queue.Bytes.{be32}
use proto_msg_queue.Protocol.Frame.{
  Frame, default_frame, of_byte, frame_magic, frame_version, frame_header_size, max_payload_size,
}
use proto_msg_queue.Protocol.Codec.{word_at}

-- `enum class ParseState`
pub data ParseState : Type 0 where
  waiting_magic waiting_header waiting_payload : ParseState

-- `class StreamingFrameCodec`
pub record StreamingFrameCodec : Type 0 where
  pub state : ParseState
  pub buffer : List ℕ
  pub partial_frame : Frame
  pub payload_length : ℕ

abbrev pub init : StreamingFrameCodec
init = record {
  state = waiting_magic;
  buffer = [];
  partial_frame = default_frame;
  payload_length = 0;
}

-- `AppendData`. The list is `data[0..len)`; a null or empty `data` is the empty list.
unfoldable pub append_data : List ℕ → StreamingFrameCodec → StreamingFrameCodec
append_data bytes c = record c { buffer = c.buffer ++ bytes }

-- `GetBufferSize`
unfoldable pub get_buffer_size : StreamingFrameCodec → ℕ
get_buffer_size c = length c.buffer

-- `Reset`
unfoldable pub reset : StreamingFrameCodec → StreamingFrameCodec
reset c = init

-- The `for` loop of `SyncMagic`: the first index, from `i` on, where the list, which is
-- `buffer_[i..]`, has a magic word.
unfoldable pub find_magic : ℕ → List ℕ → Option ℕ
find_magic i (b0 ∷ b1 ∷ b2 ∷ b3 ∷ rest) =
    let next = find_magic (i + 1) (b1 ∷ b2 ∷ b3 ∷ rest) in
    if be32 b0 b1 b2 b3 == frame_magic then some i else next
find_magic i _ = none

-- What `SyncMagic` erases: the bytes before the magic word, or all but the last three.
erase_to : StreamingFrameCodec → Option ℕ → Bool × StreamingFrameCodec
erase_to c (some i) = (true, record c { buffer = drop i c.buffer })
erase_to c none = (false, record c { buffer = drop (length c.buffer - 3) c.buffer })

-- `SyncMagic`
unfoldable pub sync_magic : StreamingFrameCodec → Bool × StreamingFrameCodec
unfolding erase_to
sync_magic c = if ltb (length c.buffer) 4 then (false, c) else erase_to c (find_magic 0 c.buffer)

-- `ParseHeader`
unfoldable pub parse_header : StreamingFrameCodec → Bool × StreamingFrameCodec
parse_header c =
    if ltb (length c.buffer) frame_header_size
    then (false, c)
    else let version : ℕ = get_or c.buffer 4 0 in
      if not (version == frame_version)
      then (false, record c { buffer = drop 1 c.buffer; state = waiting_magic })
      else let msg_type = of_byte (get_or c.buffer 5 0) in
        let len = word_at c.buffer 6 in
        if ltb max_payload_size len
        then (false, record c { buffer = drop 1 c.buffer; state = waiting_magic })
        else (
          true,
          record c {
            partial_frame = record c.partial_frame {
              magic = frame_magic;
              version = version;
              msg_type = msg_type;
              length = len;
            };
            payload_length = len;
          },
        )

-- `ParsePayload`: the frame that `out_frame` receives, where the method returns true.
unfoldable pub parse_payload : StreamingFrameCodec → Option Frame × StreamingFrameCodec
parse_payload c =
    let total_needed = frame_header_size + c.payload_length in
    if ltb (length c.buffer) total_needed then (none, c) else (
      some (record c.partial_frame {
        payload = take c.payload_length (drop frame_header_size c.buffer);
      }),
      record c {
        buffer = drop total_needed c.buffer;
        partial_frame = default_frame;
        payload_length = 0;
      },
    )

-- What one round of the `while (true)` loop does: it returns, or it breaks out of the `switch`
-- and goes round again.
pub data Round : Type 0 where
  returns : Option Frame → StreamingFrameCodec → Round
  again : StreamingFrameCodec → Round

is_waiting_magic : ParseState → Bool
is_waiting_magic waiting_magic = true
is_waiting_magic waiting_header = false
is_waiting_magic waiting_payload = false

after_sync : Bool × StreamingFrameCodec → Round
after_sync (true, c) = again (record c { state = waiting_header })
after_sync (false, c) = returns none c

after_header : Bool × StreamingFrameCodec → Round
unfolding is_waiting_magic
after_header (true, c) = again (record c { state = waiting_payload })
after_header (false, c) = if is_waiting_magic c.state then again c else returns none c

after_payload : Option Frame × StreamingFrameCodec → Round
after_payload (some f, c) = returns (some f) (record c { state = waiting_magic })
after_payload (none, c) = returns none c

-- One round of the loop: the `switch` on the state.
unfoldable pub round_in : ParseState → StreamingFrameCodec → Round
unfolding after_sync after_header after_payload
round_in waiting_magic c = after_sync (sync_magic c)
round_in waiting_header c = after_header (parse_header c)
round_in waiting_payload c = after_payload (parse_payload c)

-- `while (true)`, for at most `fuel` rounds: `none` where they do not suffice.
unfoldable pub loop : ℕ → StreamingFrameCodec → Option (Option Frame × StreamingFrameCodec)
loop zero c = none
loop (suc fuel) c = elim (round_in c.state c) [
  | returns f c' ↦ some (f, c')
  | again c' ↦ loop fuel c'
]

-- Each byte of the buffer costs two rounds at most: `Terminates.loop_total`.
abbrev pub rounds : StreamingFrameCodec → ℕ
rounds c = 2 * length c.buffer + 3

-- `TryParseFrame`; the second case is never met.
unfoldable pub try_parse_frame : StreamingFrameCodec → Option Frame × StreamingFrameCodec
try_parse_frame c = elim (loop (rounds c) c) [ some r ↦ r | none ↦ (none, c) ]
