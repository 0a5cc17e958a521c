-- ===== src/Protocol/Streaming/Refine.antt =====
-- The state machine of the codec implements `scan`: what it returns is what the bytes hold, and
-- what it keeps stands for all that it received.
use proto_msg_queue.Prelude.{
  ℕ, zero, suc, ◌+◌, ◌-◌, ◌≤◌, ◌<◌, ◌≡◌, refl, sym, ap, ◌∙◌, false, Option, none, some, List, [],
  ◌++◌, subst, some_inj, ltb→lt, ltb→le, length, get_or, take, drop, ltb, ◌==◌, ==_iff, arith,
  append-nil, Bool-cases, inl, inr,
}
use proto_msg_queue.Protocol.Frame.{Frame, frame_version, frame_header_size, max_payload_size}
use proto_msg_queue.Protocol.Codec.{word_at, try_decode}
use proto_msg_queue.Protocol.Streaming.{
  ParseState, waiting_magic, waiting_header, waiting_payload, StreamingFrameCodec, sync_magic,
  parse_header, parse_payload, Round, returns, again, round_in, loop, rounds, find_magic,
  try_parse_frame, after_sync, erase_to, is_waiting_magic,
}
use proto_msg_queue.Protocol.Streaming.Terminates.{try_parse_frame_total}
use proto_msg_queue.Protocol.Streaming.Scan.{
  yields, waits, decoded, scan, HasMagic, scan_short, scan_bad, scan_no_header, scan_header,
}
use proto_msg_queue.Protocol.Streaming.Search.{Found, find_magic-Found}
use proto_msg_queue.Protocol.Streaming.States.{HeaderRead, InState, IsGood, IsGood-at}

-- Whatever arrives next, the two buffers hold the same frames.
abbrev pub Agrees : List ℕ → List ℕ → Type 0
Agrees s s' = (t : List ℕ) → scan (s' ++ t) ≡ scan (s ++ t)

-- A round that goes on keeps the meaning; one that returns gives what `scan` says.
abbrev RoundRefines : StreamingFrameCodec → Round → Type 0
RoundRefines c (again c') = IsGood c' × Agrees c.buffer c'.buffer
RoundRefines c (returns none c') = IsGood c' × Agrees c.buffer c'.buffer × (scan c.buffer ≡ waits)
RoundRefines c (returns (some f) c') =
    (c'.state ≡ waiting_magic) × (scan c.buffer ≡ yields f c'.buffer)

magic_round :
    (c : StreamingFrameCodec) → c.state ≡ waiting_magic → RoundRefines c (round_in waiting_magic c)
unfolding round_in sync_magic
magic_round c e = elim (Bool-cases (ltb (length c.buffer) 4)) [
  | inl short ↦
      rw (short, sync_magic)
        (IsGood-at waiting_magic c e tt, λ t. refl, scan_short c.buffer (ltb→lt _ 4 short))
  | inr long ↦ rw (long, sync_magic) (found (find_magic 0 c.buffer) (find_magic-Found 0 c.buffer))
]
  where
    found : (o : Option ℕ) → Found 0 c.buffer o → RoundRefines c (after_sync (erase_to c o))
    found (some j) (k, q, h, s) =
        let q' : k ≡ j = omega (arith, q) in
        subst (λ n. HasMagic (drop n c.buffer) × Agrees c.buffer (drop n c.buffer)) q' (h, s)
    found none (w, s) = (
      IsGood-at waiting_magic (record c { buffer = drop (length c.buffer - 3) c.buffer }) e tt,
      s,
      w,
    )

header_round :
    (c : StreamingFrameCodec)
    → c.state ≡ waiting_header
    → HasMagic c.buffer
    → RoundRefines c (round_in waiting_header c)
unfolding round_in parse_header is_waiting_magic
header_round c e h = elim (Bool-cases (ltb (length c.buffer) frame_header_size)) [
  | inl short ↦
      rw (short, parse_header)
        (rw stays (
          IsGood-at waiting_header c e h,
          λ t. refl,
          scan_no_header c.buffer h (ltb→lt _ frame_header_size short),
        ))
  | inr long ↦ elim (Bool-cases (get_or c.buffer 4 0 == frame_version)) [
    | inr bad ↦
        rw (long, bad, parse_header)
          (tt, λ t. scan_bad c.buffer t h (ltb→le _ frame_header_size long) (inl bad))
    | inl good ↦ elim (Bool-cases (ltb max_payload_size (word_at c.buffer 6))) [
      | inl bad ↦
          rw (long, good, bad, parse_header)
            (tt, λ t. scan_bad c.buffer t h (ltb→le _ frame_header_size long) (inr bad))
      | inr fits ↦
          rw (long, good, fits, parse_header)
            (
              record {
                long = ltb→le _ frame_header_size long;
                magic = h.magic;
                version = (==_iff _ frame_version).0 good;
                limit = ltb→le max_payload_size _ fits;
                payload_length = refl;
                f_magic = refl;
                f_version = (==_iff _ frame_version).0 good;
                f_kind = refl;
                f_length = refl;
              },
              λ t. refl,
            )
    ]
  ]
]
  where
    stays : is_waiting_magic c.state ≡ false
    stays = ap is_waiting_magic e

-- The one-shot decoder on a buffer whose header has been read.
payload_decode :
    (c : StreamingFrameCodec)
    → HeaderRead c
    → frame_header_size + c.payload_length ≤ length c.buffer
    → try_decode c.buffer ≡ (
      some (record c.partial_frame {
        payload = take c.payload_length (drop frame_header_size c.buffer);
      }),
      frame_header_size + c.payload_length,
    )
unfolding try_decode
payload_decode c h whole = ground arith

payload_missing :
    (c : StreamingFrameCodec)
    → HeaderRead c
    → length c.buffer < frame_header_size + c.payload_length
    → try_decode c.buffer ≡ (none, 0)
unfolding try_decode
payload_missing c h short = ground arith

payload_round :
    (c : StreamingFrameCodec)
    → c.state ≡ waiting_payload
    → HeaderRead c
    → RoundRefines c (round_in waiting_payload c)
unfolding round_in parse_payload
payload_round c e h =
    elim (Bool-cases (ltb (length c.buffer) (frame_header_size + c.payload_length))) [
      | inl short ↦
          rw (short, parse_payload)
            (
              IsGood-at waiting_payload c e h,
              λ t. refl,
              judged ∙ ap (decoded c.buffer) (payload_missing c h (ltb→lt _ _ short)),
            )
      | inr whole ↦
          rw (whole, parse_payload)
            (refl, judged ∙ ap (decoded c.buffer) (payload_decode c h (ltb→le _ _ whole)))
    ]
  where
    judged : scan c.buffer ≡ decoded c.buffer (try_decode c.buffer)
    judged =
        scan_header c.buffer (record { long = omega (arith, h.long); magic = h.magic }) h.long
          h.version h.limit

round_refines : (c : StreamingFrameCodec) → IsGood c → RoundRefines c (round_in c.state c)
round_refines c h = go c.state refl h
  where
    go : (k : ParseState) → c.state ≡ k → InState k c → RoundRefines c (round_in k c)
    go waiting_magic e g = magic_round c e
    go waiting_header e g = header_round c e g
    go waiting_payload e g = payload_round c e g

-- What a call of `TryParseFrame` returns, and the codec that it leaves.
abbrev pub Refines : List ℕ → Option Frame × StreamingFrameCodec → Type 0
Refines s (none, c') = IsGood c' × Agrees s c'.buffer × (scan s ≡ waits)
Refines s (some f, c') = (c'.state ≡ waiting_magic) × (scan s ≡ yields f c'.buffer)

pub Agrees-now : (s s' : List ℕ) → Agrees s s' → scan s ≡ scan s'
Agrees-now s s' a = ap scan (sym (append-nil s)) ∙ sym (a []) ∙ ap scan (append-nil s')

-- The result of a later round is the result for the buffer before it.
Refines-again :
    (s s' : List ℕ) (r : Option Frame × StreamingFrameCodec)
    → Agrees s s'
    → Refines s' r
    → Refines s r
Refines-again s s' (none, c') a (g, b, w) = (g, λ t. b t ∙ a t, Agrees-now s s' a ∙ w)
Refines-again s s' (some f, c') a (m, y) = (m, Agrees-now s s' a ∙ y)

loop-Refines :
    (fuel : ℕ) (c : StreamingFrameCodec) (r : Option Frame × StreamingFrameCodec)
    → IsGood c
    → loop fuel c ≡ some r
    → Refines c.buffer r
unfolding loop
loop-Refines zero c r g e = cc
loop-Refines (suc fuel) c r g e =
    go (round_in c.state c) refl (round_refines c g) (loop-Refines fuel)
  where
    go :
        (o : Round)
        → round_in c.state c ≡ o
        → RoundRefines c o
        → ((c' : StreamingFrameCodec) (r : Option Frame × StreamingFrameCodec)
            → IsGood c'
            → loop fuel c' ≡ some r
            → Refines c'.buffer r)
        → Refines c.buffer r
    go (returns none c') q h ih = subst (Refines c.buffer) (some_inj _ _ (rw (q, loop) at e)) h
    go (returns (some f) c') q h ih = subst (Refines c.buffer) (some_inj _ _ (rw (q, loop) at e)) h
    go (again c') q (g', a) ih =
        Refines-again c.buffer c'.buffer r a (ih c' r g' (rw (q, loop) at e))

-- `TryParseFrame` of a codec whose buffer fits its state returns a frame only if the scan of the
-- buffer yields this frame, and then keeps the bytes behind it; if it returns none, the scan finds
-- none, and the bytes kept give the same scan as those before, whatever comes behind them.
pub try_parse_frame-Refines :
    (c : StreamingFrameCodec) → IsGood c → Refines c.buffer (try_parse_frame c)
try_parse_frame-Refines c g =
    loop-Refines (rounds c) c (try_parse_frame c) g (try_parse_frame_total c)
