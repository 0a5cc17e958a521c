-- ===== src/Network/Connection/Reads.antt =====
-- A connection that stays open hands over the frames that its bytes hold, however the kernel cuts
-- them up into reads.
use proto_msg_queue.Prelude.{
  ℕ, ◌+◌, ◌≡◌, refl, sym, ◌∙◌, subst, true, false, List, [], ◌∷◌, ◌++◌, length, arith, append-nil,
  append_assoc,
}
use proto_msg_queue.Protocol.Frame.{Frame}
use proto_msg_queue.Protocol.Streaming.{StreamingFrameCodec, append_data}
use proto_msg_queue.Protocol.Streaming.Scan.{waits, scan}
use proto_msg_queue.Protocol.Streaming.Refine.{Agrees, Agrees-now}
use proto_msg_queue.Protocol.Streaming.States.{IsGood, IsGood-append}
use proto_msg_queue.Network.Connection.{
  Connection, Recv, got, peer_closed, would_block, failed, receive, decode_input, on_read, on_reads,
}
use proto_msg_queue.Network.Connection.Inbound.{
  Holds, Begins, Begins-append, Holds-Begins, Holds-same, Holds-unique, parse_frames-Parsed,
}

-- The bytes that one `recv` loop takes in.
abbrev pub bytes_in : List Recv → List ℕ
bytes_in [] = []
bytes_in (got bytes ∷ rest) = bytes ++ bytes_in rest
bytes_in (peer_closed ∷ rest) = []
bytes_in (would_block ∷ rest) = []
bytes_in (failed ∷ rest) = []

-- The loop ends by EAGAIN, not by the end of the stream or an error.
abbrev pub IsQuiet : List Recv → Type 0
IsQuiet [] = Unit {0}
IsQuiet (got bytes ∷ rest) = IsQuiet rest
IsQuiet (peer_closed ∷ rest) = ⊥
IsQuiet (would_block ∷ rest) = Unit {0}
IsQuiet (failed ∷ rest) = ⊥

abbrev pub AllQuiet : List (List Recv × ℕ) → Type 0
AllQuiet [] = Unit {0}
AllQuiet ((input, now) ∷ rest) = IsQuiet input × AllQuiet rest

abbrev pub bytes_of : List (List Recv × ℕ) → List ℕ
bytes_of [] = []
bytes_of ((input, now) ∷ rest) = bytes_in input ++ bytes_of rest

-- Between two reads of an open connection no frame is left in the codec.
pub record IsIdle (c : Connection) : Type 0 where
  pub is_open : c.closed ≡ false
  pub drained : c.read_buffer ≡ []
  pub good : IsGood c.codec
  pub waiting : scan c.codec.buffer ≡ waits

receive_quiet :
    (input : List Recv) (c : Connection)
    → IsQuiet input
    → receive input c ≡ (true, record c { read_buffer = c.read_buffer ++ bytes_in input })
unfolding receive
receive_quiet [] c q = simp append-nil
receive_quiet (got bytes ∷ rest) c q =
    rw (receive_quiet rest (record c { read_buffer = c.read_buffer ++ bytes }) q)
      (simp append_assoc)
receive_quiet (peer_closed ∷ rest) c q = absurd q
receive_quiet (would_block ∷ rest) c q = simp append-nil
receive_quiet (failed ∷ rest) c q = absurd q

-- A quiet read parses what was left over and what has come.
on_read_quiet :
    (input : List Recv) (now : ℕ) (c : Connection)
    → c.closed ≡ false
    → c.read_buffer ≡ []
    → IsQuiet input
    → on_read input now c
      ≡ decode_input (record c { read_buffer = bytes_in input; last_active_ms = now })
unfolding on_read
on_read_quiet input now c o e q = ground (arith, receive_quiet input c q)

-- What one read makes of an idle connection: frames off the front, and an idle connection that
-- stands for the rest.
record ReadOf (s : List ℕ) (r : List Frame × Connection) : Type 0 where
  rest : List ℕ
  begins : Begins s r.0 rest
  idle : IsIdle r.1
  agrees : Agrees rest r.1.codec.buffer

decode_input-ReadOf :
    (c : Connection)
    → c.closed ≡ false
    → IsGood c.codec
    → ReadOf (c.codec.buffer ++ c.read_buffer) (decode_input c)
unfolding decode_input append_data
decode_input-ReadOf c o g =
    let k : StreamingFrameCodec = append_data c.read_buffer c.codec in
    let (rest, b, g', a, w) =
      parse_frames-Parsed (length k.buffer + 1) k (IsGood-append c.read_buffer c.codec g)
        (omega arith) in
    record {
      rest = rest;
      begins = b;
      idle = record {
        is_open = o;
        drained = refl;
        good = g';
        waiting = sym (Agrees-now rest _ a) ∙ w;
      };
      agrees = a;
    }

on_read-ReadOf :
    (input : List Recv) (now : ℕ) (c : Connection)
    → IsIdle c
    → IsQuiet input
    → ReadOf (c.codec.buffer ++ bytes_in input) (on_read input now c)
on_read-ReadOf input now c i q =
    subst (ReadOf (c.codec.buffer ++ bytes_in input))
      (sym (on_read_quiet input now c i.is_open i.drained q))
      (decode_input-ReadOf (record c { read_buffer = bytes_in input; last_active_ms = now })
        i.is_open i.good)

-- Reads of an open connection that waits, none of which meets the end of the stream or an error,
-- hand over the frames that the bytes hold, those that wait in the codec before those read.
pub on_reads-Holds :
    (events : List (List Recv × ℕ)) (c : Connection)
    → IsIdle c
    → AllQuiet events
    → Holds (c.codec.buffer ++ bytes_of events) (on_reads events c).0
unfolding on_reads
on_reads-Holds [] c i q = rw append-nil i.waiting
on_reads-Holds ((input, now) ∷ rest) c i q =
    go (on_read-ReadOf input now c i q.0) (λ c' i'. on_reads-Holds rest c' i' q.1)
  where
    s : List ℕ
    s = c.codec.buffer

    c' : Connection
    c' = (on_read input now c).1

    go :
        ReadOf (s ++ bytes_in input) (on_read input now c)
        → ((c' : Connection)
            → IsIdle c'
            → Holds (c'.codec.buffer ++ bytes_of rest) (on_reads rest c').0)
        → Holds
            (s ++ (bytes_in input ++ bytes_of rest))
            ((on_read input now c).0 ++ (on_reads rest c').0)
    go r ih = rw (← append_assoc s (bytes_in input) (bytes_of rest)) (
        Holds-Begins _ (on_read input now c).0 (on_reads rest c').0 (r.rest ++ bytes_of rest)
          (Begins-append _ (on_read input now c).0 r.rest (bytes_of rest) r.begins)
          (Holds-same (c'.codec.buffer ++ bytes_of rest) (r.rest ++ bytes_of rest) _
            (r.agrees (bytes_of rest)) (ih c' r.idle)))

-- On an open connection that waits, two sequences of reads that take in the same bytes, neither
-- meeting the end of the stream or an error, hand over the same frames.
pub on_reads_chunks :
    (events events' : List (List Recv × ℕ)) (c : Connection)
    → IsIdle c
    → AllQuiet events
    → AllQuiet events'
    → bytes_of events ≡ bytes_of events'
    → (on_reads events c).0 ≡ (on_reads events' c).0
on_reads_chunks events events' c i q q' e =
    Holds-unique (c.codec.buffer ++ bytes_of events') _ _
      (subst (λ b. Holds (c.codec.buffer ++ b) (on_reads events c).0) e
        (on_reads-Holds events c i q))
      (on_reads-Holds events' c i q')
