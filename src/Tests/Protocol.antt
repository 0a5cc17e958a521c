-- ===== src/Tests/Protocol.antt =====
-- Frames written, read and looked for.
use proto_msg_queue.Prelude.{ℕ, ◌≡◌, some, List, [], ◌∷◌, ◌++◌, arith, refl}
use proto_msg_queue.Protocol.Frame.{to_byte, of_byte}
use proto_msg_queue.Bytes.{be32}
use proto_msg_queue.Protocol.Codec.{encode, try_decode}
use proto_msg_queue.Protocol.Codec.RoundTrip.{
  received, try_decode-encode, Decodes, try_decode-Decodes,
}
use proto_msg_queue.Protocol.Streaming.{init, append_data, loop, rounds, try_parse_frame}
use proto_msg_queue.Protocol.Streaming.Terminates.{try_parse_frame_total}
use proto_msg_queue.Protocol.Streaming.Refine.{Refines, try_parse_frame-Refines}
use proto_msg_queue.Protocol.Streaming.Scan.{yields, scan}
use proto_msg_queue.Protocol.Streaming.Resync.{scan-encode}
use proto_msg_queue.Tests.Data.{ping_frame, ping_frame-IsSendable}

abbrev ping_bytes : List ℕ
ping_bytes = 222 ∷ 173 ∷ 190 ∷ 239 ∷ 1 ∷ 11 ∷ 0 ∷ 0 ∷ 0 ∷ 2 ∷ 7 ∷ 8 ∷ []

encoded_ping : encode ping_frame ≡ ping_bytes
unfolding encode to_byte
encoded_ping = refl

try_decode-encode_example :
    try_decode (encode ping_frame ++ 9 ∷ []) ≡ (some (received ping_frame), 12)
try_decode-encode_example = try_decode-encode ping_frame (9 ∷ []) ping_frame-IsSendable

scan-encode_example : scan (encode ping_frame ++ 9 ∷ []) ≡ yields (received ping_frame) (9 ∷ [])
scan-encode_example = scan-encode ping_frame (9 ∷ []) ping_frame-IsSendable

try_decode-Decodes_example : Decodes (ping_bytes ++ 9 ∷ []) (received ping_frame) 12
unfolding try_decode of_byte be32
try_decode-Decodes_example =
    try_decode-Decodes (ping_bytes ++ 9 ∷ []) (received ping_frame) 12
      (
        omega arith,
        (
          omega arith,
          (
            omega arith,
            (
              omega arith,
              (
                omega arith,
                (
                  omega arith,
                  (
                    omega arith,
                    (
                      omega arith,
                      (omega arith, (omega arith, (omega arith, (omega arith, (omega arith, tt))))),
                    ),
                  ),
                ),
              ),
            ),
          ),
        ),
      )
      refl

try_parse_frame_total_example :
    loop (rounds (append_data ping_bytes init)) (append_data ping_bytes init)
    ≡ some (try_parse_frame (append_data ping_bytes init))
try_parse_frame_total_example = try_parse_frame_total (append_data ping_bytes init)

try_parse_frame-Refines_example :
    Refines (append_data ping_bytes init).buffer (try_parse_frame (append_data ping_bytes init))
unfolding append_data
try_parse_frame-Refines_example = try_parse_frame-Refines (append_data ping_bytes init) tt
