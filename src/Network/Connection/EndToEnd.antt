-- ===== src/Network/Connection/EndToEnd.antt =====
-- From the frames that one end sends to the frames that the other end's handler gets.
use proto_msg_queue.Prelude.{
  ℕ, ◌≡◌, refl, sym, ap, ◌∙◌, Bool, true, false, List, [], ◌∷◌, ◌++◌, arith, map, append-nil,
  append_assoc, All,
}
use proto_msg_queue.Protocol.Frame.{Frame}
use proto_msg_queue.Protocol.Codec.{encode}
use proto_msg_queue.Protocol.Codec.RoundTrip.{IsSendable, received}
use proto_msg_queue.Protocol.Streaming.Scan.{scan_short}
use proto_msg_queue.Network.Connection.{
  Connection, Sent, Recv, first_result, send_frame, send_frames, keep_if, on_reads,
}
use proto_msg_queue.Network.Connection.Reads.{IsIdle, AllQuiet, bytes_of}
use proto_msg_queue.Network.Connection.Delivery.{
  Segment, stream, IsStream, frames_of, on_reads-stream,
}
use proto_msg_queue.Network.Connection.Outbound.{
  accepted, IsHonest, SendOutcome, sends, refuses, closes, send_frame-SendOutcome,
}

-- A frame that can be sent, and a kernel that takes no more than it is offered.
pub record IsCall (call : Frame × List Sent) : Type 0 where
  pub sendable : IsSendable call.0
  pub honest : IsHonest call.0 (first_result call.1)

abbrev pub IsCalls : List (Frame × List Sent) → Type 0
IsCalls = All IsCall

-- The frames as a stream with no stray bytes.
abbrev pub plain : List Frame → List Segment
plain [] = []
plain (f ∷ fs) = ([], f) ∷ plain fs

frames_of-plain : (fs : List Frame) → frames_of (plain fs) ≡ map received fs
frames_of-plain [] = refl
frames_of-plain (f ∷ fs) = ap (◌∷◌ (received f)) (frames_of-plain fs)

closed_refuses :
    (f : Frame) (results : List Sent) (c : Connection)
    → c.closed ≡ true
    → send_frame f results c ≡ (false, c)
unfolding send_frame
closed_refuses f results c e = ground arith

closed_stays :
    (calls : List (Frame × List Sent)) (c : Connection)
    → c.closed ≡ true
    → (send_frames calls c).1.closed ≡ true
unfolding send_frames
closed_stays [] c e = e
closed_stays ((f, results) ∷ calls) c e =
    closed_stays calls (send_frame f results c).1
      (ap (λ r. r.1.closed) (closed_refuses f results c e) ∙ e)

-- Where a connection is still open after calls of `SendFrame` with frames that can be sent, what it
-- has accepted since is the encoding of the frames for which it returned true, in their order.
pub send_frames-accepted :
    (calls : List (Frame × List Sent)) (c : Connection)
    → IsCalls calls
    → (send_frames calls c).1.closed ≡ false
    → (accepted (send_frames calls c).1 ≡ accepted c ++ stream (plain (send_frames calls c).0) [])
      × IsStream (plain (send_frames calls c).0)
unfolding send_frames keep_if
send_frames-accepted [] c v o = (sym (append-nil (accepted c)), tt)
send_frames-accepted ((f, results) ∷ calls) c v o =
    go (send_frame f results c)
      (send_frame-SendOutcome f results c (omega (arith, v.0.sendable.fits)) v.0.honest) o
      (λ c' o'. send_frames-accepted calls c' v.1 o')
  where
    Done : List Frame → Connection → Connection → Type 0
    Done fs c c' = (accepted c' ≡ accepted c ++ stream (plain fs) []) × IsStream (plain fs)

    go :
        (r : Bool × Connection)
        → SendOutcome f c r
        → (send_frames calls r.1).1.closed ≡ false
        → ((c' : Connection)
            → (send_frames calls c').1.closed ≡ false
            → Done (send_frames calls c').0 c' (send_frames calls c').1)
        → Done (keep_if r.0 f (send_frames calls r.1).0) c (send_frames calls r.1).1
    go (true, c') (sends e s a) o ih =
        let (sent, good) = ih c' o in
        (
          sent
              ∙ ap (λ w. w ++ stream (plain (send_frames calls c').0) []) a
              ∙ append_assoc (accepted c) (encode f) (stream (plain (send_frames calls c').0) []),
          (tt, v.0.sendable, good),
        )
    go (false, c') (sends e s a) o ih = absurd (cc)
    go (true, c') (refuses e s) o ih = absurd (cc)
    go (false, c') (refuses e s) o ih =
        let (sent, good) = ih c' o in
        (sent ∙ ap (λ w. accepted w ++ stream (plain (send_frames calls c').0) []) s, good)
    go (b, c') (closes e s) o ih = absurd (cc (closed_stays calls c' s))

-- Let one end send frames from an empty connection on, stay open and have its buffer flushed, and let
-- the other end, open and with an empty codec, read exactly the bytes on the wire, cut up in any way,
-- without the end of the stream or an error. Then its handler gets the frames for which `SendFrame`
-- returned true, once and in order, and nothing else.
pub end_to_end :
    (calls : List (Frame × List Sent)) (sender receiver : Connection)
    (events : List (List Recv × ℕ))
    → IsCalls calls
    → accepted sender ≡ []
    → (send_frames calls sender).1.closed ≡ false
    → (send_frames calls sender).1.write_buffer ≡ []
    → IsIdle receiver
    → receiver.codec.buffer ≡ []
    → AllQuiet events
    → bytes_of events ≡ (send_frames calls sender).1.wire
    → (on_reads events receiver).0 ≡ map received (send_frames calls sender).0
end_to_end calls sender receiver events v empty open_ flushed idle fresh quiet all =
    let (sent, good) = send_frames-accepted calls sender v open_ in
    let c' = (send_frames calls sender).1 in
    let fs = (send_frames calls sender).0 in
    on_reads-stream events receiver (plain fs) [] idle quiet good (scan_short [] (omega arith)) (
      ap (λ b. b ++ bytes_of events) fresh
      ∙ all
      ∙ sym (append-nil c'.wire)
      ∙ ap (λ w. c'.wire ++ w) (sym flushed)
      ∙ sent
      ∙ ap (λ w. w ++ stream (plain fs) []) empty)
    ∙ frames_of-plain fs
