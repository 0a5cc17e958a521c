-- ===== src/Network/Connection/Delivery.antt =====
-- A stream of encoded frames, with stray bytes between them, arrives as those frames.
use proto_msg_queue.Prelude.{ℕ, ◌≡◌, ◌∙◌, sym, subst, List, [], ◌∷◌, ◌++◌, arith}
use proto_msg_queue.Protocol.Frame.{Frame}
use proto_msg_queue.Protocol.Codec.{encode}
use proto_msg_queue.Protocol.Codec.RoundTrip.{IsSendable, received, length-encode}
use proto_msg_queue.Protocol.Streaming.Scan.{waits, scan}
use proto_msg_queue.Protocol.Streaming.Resync.{IsStray, IsStray-append, scan-encode, scan_stray}
use proto_msg_queue.Network.Connection.{Connection, Recv, on_reads}
use proto_msg_queue.Network.Connection.Inbound.{Holds, Holds-unique}
use proto_msg_queue.Network.Connection.Reads.{IsIdle, AllQuiet, bytes_of, on_reads-Holds}

-- Stray bytes, and the frame behind them.
abbrev pub Segment : Type 0
Segment = List ℕ × Frame

abbrev pub stream : List Segment → List ℕ → List ℕ
stream [] tail = tail
stream ((junk, f) ∷ segments) tail = junk ++ (encode f ++ stream segments tail)

-- No magic word begins in the stray bytes, and the frames can be sent.
abbrev pub IsStream : List Segment → Type 0
IsStream [] = Unit {0}
IsStream ((junk, f) ∷ segments) = IsStray junk (encode f) × IsSendable f × IsStream segments

abbrev pub frames_of : List Segment → List Frame
frames_of [] = []
frames_of ((junk, f) ∷ segments) = received f ∷ frames_of segments

stream-Holds :
    (segments : List Segment) (tail : List ℕ)
    → IsStream segments
    → scan tail ≡ waits
    → Holds (stream segments tail) (frames_of segments)
stream-Holds [] tail s w = w
stream-Holds ((junk, f) ∷ segments) tail (j, s, r) w = (
  stream segments tail,
  scan_stray junk (encode f ++ stream segments tail)
        (IsStray-append junk (encode f) (stream segments tail) (omega (arith, length-encode f)) j)
      ∙ scan-encode f (stream segments tail) s,
  stream-Holds segments tail r w,
)

-- Let the bytes that wait in the codec of an open connection, and those that reads without end of
-- stream or error take in, be a stream of encoded frames, with stray bytes before each at none of
-- which a magic word begins, and at the end bytes in which no frame is found. Then the handler gets
-- each frame of the stream once and in order, and nothing else.
pub on_reads-stream :
    (events : List (List Recv × ℕ)) (c : Connection) (segments : List Segment) (tail : List ℕ)
    → IsIdle c
    → AllQuiet events
    → IsStream segments
    → scan tail ≡ waits
    → c.codec.buffer ++ bytes_of events ≡ stream segments tail
    → (on_reads events c).0 ≡ frames_of segments
on_reads-stream events c segments tail i q s w e =
    Holds-unique (c.codec.buffer ++ bytes_of events) _ _ (on_reads-Holds events c i q)
      (subst (λ b. Holds b (frames_of segments)) (sym e) (stream-Holds segments tail s w))
