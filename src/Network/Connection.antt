-- ===== src/Network/Connection.antt =====
-- src/network/connection.cpp: one TCP connection. The socket is not modelled: what each `recv`,
-- `send` and `writev` returned is an argument, and `wire` is what the kernel has taken so far.
pub mod Inbound
pub mod Reads
pub mod Delivery
pub mod Outbound
pub mod EndToEnd
pub mod Permits
pub mod Identity
use proto_msg_queue.Prelude.{
  is_empty, ℕ, zero, suc, ◌+◌, ◌-◌, ◌%◌, ◌^◌, Bool, true, false, not, ◌||◌, Option, none, some,
  List, [], ◌∷◌, ◌++◌, length, take, drop, replicate, ltb, ◌==◌, if◌then◌else◌,
}
use proto_msg_queue.Protocol.Frame.{Frame, frame_header_size}
use proto_msg_queue.Protocol.Codec.{encode, encode_header_to_buffer}
use proto_msg_queue.Protocol.Streaming
use proto_msg_queue.Protocol.Streaming.{StreamingFrameCodec, append_data, try_parse_frame}

-- `class Connection`, with the two fields of its `BrokerConfig` that it reads here. `now_ms` goes
-- into `last_active_ms`.
pub record Connection : Type 0 where
  pub id : ℕ
  pub closed : Bool
  pub read_buffer : List ℕ
  pub write_buffer : List ℕ
  pub codec : StreamingFrameCodec
  pub last_active_ms : ℕ
  pub zero_copy_enabled : Bool
  pub max_write_buffer_size : ℕ
  pub wire : List ℕ

-- `Close`: the descriptor and the close handler are outside the model.
unfoldable pub close : Connection → Connection
close c = record c { closed = true }

-- What one `recv` returned: bytes, the end of the stream, EAGAIN, or another error.
pub data Recv : Type 0 where
  got : List ℕ → Recv
  peer_closed : Recv
  would_block : Recv
  failed : Recv

-- The `recv` loop of `OnRead`: true where it ends by EAGAIN. The list is what `recv` returns, call
-- by call; a list that ends stands for EAGAIN.
unfoldable pub receive : List Recv → Connection → Bool × Connection
unfolding close
receive [] c = (true, c)
receive (got bytes ∷ rest) c = receive rest (record c { read_buffer = c.read_buffer ++ bytes })
receive (peer_closed ∷ rest) c = (false, close c)
receive (would_block ∷ rest) c = (true, c)
receive (failed ∷ rest) c = (false, close c)

-- `while (true) { TryParseFrame ... frame_handler_ ... }`: the frames handed over, in order. A frame
-- takes ten bytes at least, so the length of the buffer bounds the rounds.
unfoldable pub parse_frames : ℕ → StreamingFrameCodec → List Frame × StreamingFrameCodec
parse_frames zero k = ([], k)
parse_frames (suc fuel) k =
    let (o, k') = try_parse_frame k in
    elim o [ none ↦ ([], k') | some f ↦ (f ∷ (parse_frames fuel k').0, (parse_frames fuel k').1) ]

-- The part of `OnRead` behind the `recv` loop.
unfoldable pub decode_input : Connection → List Frame × Connection
unfolding append_data
decode_input c =
    let k = append_data c.read_buffer c.codec in
    let (fs, k') = parse_frames (length k.buffer + 1) k in
    (fs, record c { read_buffer = []; codec = k' })

decode_if : Bool × Connection → ℕ → List Frame × Connection
unfolding decode_input
decode_if (true, c) now = decode_input (record c { last_active_ms = now })
decode_if (false, c) now = ([], c)

-- `OnRead`: the frames given to the handler, and the connection after. The handler is the broker's,
-- and is run on them in this order.
unfoldable pub on_read : List Recv → ℕ → Connection → List Frame × Connection
unfolding receive decode_if
on_read input now c = if c.closed then ([], c) else decode_if (receive input c) now

-- A sequence of reads of one connection, each with its `recv` results and its time.
unfoldable pub on_reads : List (List Recv × ℕ) → Connection → List Frame × Connection
on_reads [] c = ([], c)
on_reads ((input, now) ∷ rest) c =
    let (fs, c') = on_read input now c in let (gs, c'') = on_reads rest c' in (fs ++ gs, c'')

-- What one `send` or `writev` returned: a count, EAGAIN, or another error.
pub data Sent : Type 0 where
  took : ℕ → Sent
  blocked : Sent
  broken : Sent

-- The `while (total_sent < write_buffer_.size())` loop of `SendFrame`: `none` where it closes the
-- connection, else `total_sent`. Beside it, what the kernel has taken. The list is what `send`
-- returns, call by call; a list that ends stands for EAGAIN.
unfoldable pub send_loop : List Sent → List ℕ → ℕ → List ℕ → Option ℕ × List ℕ
send_loop [] buffer total wire = (some total, wire)
send_loop (took n ∷ rest) buffer total wire =
    let more = send_loop rest buffer (total + n) (wire ++ take n (drop total buffer)) in
    if not (ltb total (length buffer))
    then (some total, wire)
    else if n == 0
    then (none, wire)
    else more
send_loop (blocked ∷ rest) buffer total wire = (some total, wire)
send_loop (broken ∷ rest) buffer total wire =
    if not (ltb total (length buffer)) then (some total, wire) else (none, wire)

flushed : Connection → Option ℕ × List ℕ → Bool × Connection
unfolding close
flushed c (none, wire) = (false, close (record c { wire = wire }))
flushed c (some total, wire) =
    (true, record c { write_buffer = drop total c.write_buffer; wire = wire })

-- The path of `SendFrame` through `write_buffer_`.
unfoldable pub send_buffered : Frame → List Sent → Connection → Bool × Connection
unfolding flushed
send_buffered f results c =
    let encoded = encode f in
    if ltb c.max_write_buffer_size (length c.write_buffer + length encoded)
    then (false, c)
    else let buffer = c.write_buffer ++ encoded in
      flushed (record c { write_buffer = buffer }) (send_loop results buffer 0 c.wire)

-- What a `writev` that took `n` bytes leaves of the header and of the payload. The `size_t`
-- subtractions wrap.
unfoldable pub unsent : List ℕ → List ℕ → ℕ → List ℕ × List ℕ
unsent header payload n =
    let remaining_header = if ltb n (length header) then length header - n else 0 in
    let payload_sent = if ltb (length header) n then n - length header else 0 in
    let remaining_payload = (length payload + 2 ^ 64 - payload_sent) % 2 ^ 64 in
    (
      if ltb 0 remaining_header then drop (length header - remaining_header) header else [],
      if ltb 0 remaining_payload then drop payload_sent payload else [],
    )

-- What `SendFrame` does with the result of `writev`, for the header and the payload offered.
unfoldable pub after_writev : List ℕ → List ℕ → Sent → Connection → Bool × Connection
unfolding close
after_writev header payload (took n) c =
    let total_to_send = length header + length payload in
    let sent = record c { wire = c.wire ++ take n (header ++ payload) } in
    if n == total_to_send
    then (true, sent)
    else if n == 0
    then (false, close c)
    else let (rest_of_header, rest_of_payload) = unsent header payload n in
      (true, record sent { write_buffer = (c.write_buffer ++ rest_of_header) ++ rest_of_payload })
after_writev header payload blocked c =
    (true, record c { write_buffer = (c.write_buffer ++ header) ++ payload })
after_writev header payload broken c = (false, close c)

unfoldable pub first_result : List Sent → Sent
first_result [] = blocked
first_result (r ∷ rest) = r

-- The zero-copy path of `SendFrame`.
unfoldable pub send_zero_copy : Frame → List Sent → Connection → Bool × Connection
unfolding first_result
send_zero_copy f results c =
    let (header_size, header) = encode_header_to_buffer f (replicate frame_header_size 0) in
    if header_size == 0 then (false, c) else after_writev header f.payload (first_result results) c

-- `SendFrame`
unfoldable pub send_frame : Frame → List Sent → Connection → Bool × Connection
send_frame f results c =
    if c.closed
    then (false, c)
    else if not (is_empty c.write_buffer) || not c.zero_copy_enabled
    then send_buffered f results c
    else send_zero_copy f results c

keep_if : Bool → Frame → List Frame → List Frame
keep_if true f fs = f ∷ fs
keep_if false f fs = fs

-- Calls of `SendFrame` in turn, each with what the kernel answers: the frames for which it returned
-- true, and the connection after.
unfoldable pub send_frames : List (Frame × List Sent) → Connection → List Frame × Connection
unfolding keep_if
send_frames [] c = ([], c)
send_frames ((f, results) ∷ calls) c =
    let (ok, c') = send_frame f results c in
    let (fs, c'') = send_frames calls c' in (keep_if ok f fs, c'')
