-- ===== src/Tests/Network.antt =====
-- A frame sent in two pieces and read in two pieces.
use proto_msg_queue.Prelude.{ℕ, List, [], ◌∷◌, arith, refl, ◌≡◌, map}
use proto_msg_queue.Bytes.{be32}
use proto_msg_queue.Protocol.Frame.{Frame, to_byte}
use proto_msg_queue.Protocol.Codec.{encode, encode_header_to_buffer}
use proto_msg_queue.Protocol.Codec.RoundTrip.{received}
use proto_msg_queue.Protocol.Streaming.Scan.{scan_short}
use proto_msg_queue.Network.Connection.{
  Recv, got, would_block, Sent, took, send_frame, send_frames, on_reads, send_zero_copy,
  after_writev, first_result,
}
use proto_msg_queue.Network.Connection.Reads.{bytes_of, on_reads-Holds, on_reads_chunks}
use proto_msg_queue.Network.Connection.Inbound.{Holds}
use proto_msg_queue.Network.Connection.Delivery.{on_reads-stream}
use proto_msg_queue.Network.Connection.Outbound.{SendOutcome, send_frame-SendOutcome}
use proto_msg_queue.Network.Connection.EndToEnd.{IsCall, end_to_end}
use proto_msg_queue.Tests.Data.{
  ping_frame, ping_frame-IsSendable, new_connection, new_connection-IsIdle,
}

-- The kernel takes all twelve bytes.
abbrev calls : List (Frame × List Sent)
calls = (ping_frame, took 12 ∷ []) ∷ []

ping_frame-IsCall : IsCall (ping_frame, took 12 ∷ [])
unfolding first_result
ping_frame-IsCall = record { sendable = ping_frame-IsSendable; honest = omega arith }

-- The other end reads three of them, and then the others.
abbrev reads : List (List Recv × ℕ)
reads =
    (got (222 ∷ 173 ∷ 190 ∷ []) ∷ would_block ∷ [], 5)
    ∷ (got (239 ∷ 1 ∷ 11 ∷ 0 ∷ 0 ∷ 0 ∷ 2 ∷ 7 ∷ 8 ∷ []) ∷ [], 6)
    ∷ []

-- All at once.
abbrev one_read : List (List Recv × ℕ)
one_read = (got (bytes_of reads) ∷ would_block ∷ [], 5) ∷ []

sent_frame :
    send_frames calls new_connection
    ≡ (ping_frame ∷ [], record new_connection { wire = encode ping_frame })
unfolding send_frames send_frame send_zero_copy after_writev encode_header_to_buffer encode to_byte
sent_frame = refl

end_to_end_example :
    (on_reads reads new_connection).0 ≡ map received (send_frames calls new_connection).0
unfolding send_frames send_frame send_zero_copy after_writev encode_header_to_buffer encode to_byte
end_to_end_example =
    end_to_end calls new_connection new_connection reads (ping_frame-IsCall, tt) refl refl refl
      new_connection-IsIdle refl (tt, (tt, tt)) refl

on_reads_chunks_example : (on_reads reads new_connection).0 ≡ (on_reads one_read new_connection).0
on_reads_chunks_example =
    on_reads_chunks reads one_read new_connection new_connection-IsIdle (tt, (tt, tt)) (tt, tt) refl

on_reads-Holds_example : Holds (bytes_of reads) (on_reads reads new_connection).0
on_reads-Holds_example = on_reads-Holds reads new_connection new_connection-IsIdle (tt, (tt, tt))

-- The frame behind two bytes of which the first could begin a magic word, and does not.
abbrev stray_read : List (List Recv × ℕ)
stray_read = (got (222 ∷ 0 ∷ encode ping_frame) ∷ would_block ∷ [], 5) ∷ []

on_reads-stream_example : (on_reads stray_read new_connection).0 ≡ received ping_frame ∷ []
unfolding encode to_byte be32
on_reads-stream_example =
    on_reads-stream stray_read new_connection ((222 ∷ 0 ∷ [], ping_frame) ∷ []) []
      new_connection-IsIdle (tt, tt) ((refl, (refl, tt)), ping_frame-IsSendable, tt)
      (scan_short [] (omega arith)) refl

send_frame-SendOutcome_example :
    SendOutcome ping_frame new_connection (send_frame ping_frame (took 12 ∷ []) new_connection)
unfolding first_result
send_frame-SendOutcome_example =
    send_frame-SendOutcome ping_frame (took 12 ∷ []) new_connection (omega arith) (omega arith)
