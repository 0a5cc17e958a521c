-- ===== src/Protocol/Streaming/Terminates.antt =====
-- `TryParseFrame` returns: each round that goes on gets nearer to the end.
use proto_msg_queue.Prelude.{
  ℕ, zero, suc, ◌+◌, ◌*◌, ◌≤◌, ◌<◌, ◌≡◌, refl, sym, ap, ◌∙◌, Option, some, length, arith,
  length-drop, Option-cases, inl, inr,
}
use proto_msg_queue.Protocol.Frame.{Frame}
use proto_msg_queue.Protocol.Streaming.{
  ParseState, waiting_magic, waiting_header, waiting_payload, StreamingFrameCodec, sync_magic,
  parse_header, parse_payload, Round, returns, again, round_in, loop, rounds, find_magic,
  try_parse_frame,
}

-- Rounds that may still follow in a state.
abbrev stage : ParseState → ℕ
stage waiting_magic = 2
stage waiting_header = 1
stage waiting_payload = 0

abbrev measure : StreamingFrameCodec → ℕ
measure c = 2 * length c.buffer + stage c.state

module _ (c c' : StreamingFrameCodec) where
  magic_progress :
      c.state ≡ waiting_magic → round_in waiting_magic c ≡ again c' → measure c' < measure c
  unfolding round_in sync_magic
  magic_progress s e = elim (Option-cases (find_magic 0 c.buffer)) [
    | inl nothing ↦ ground (arith, nothing)
    | inr (i, found) ↦ ground (arith, found, length-drop i c.buffer)
  ]

  header_progress :
      c.state ≡ waiting_header → round_in waiting_header c ≡ again c' → measure c' < measure c
  unfolding round_in parse_header
  header_progress s e = ground (arith, length-drop 1 c.buffer)

  payload_progress :
      c.state ≡ waiting_payload → round_in waiting_payload c ≡ again c' → measure c' < measure c
  unfolding round_in parse_payload
  payload_progress s e = ground arith

-- The loop ends by a `return` within the fuel, from every state of the codec.
pub loop_total :
    (fuel : ℕ) (c : StreamingFrameCodec)
    → measure c < fuel
    → (r : Option Frame × StreamingFrameCodec) × (loop fuel c ≡ some r)
unfolding loop
loop_total zero c h = absurd (omega arith)
loop_total (suc fuel) c h = go c.state refl (round_in c.state c) refl (loop_total fuel)
  where
    falls :
        (s : ParseState) (c' : StreamingFrameCodec)
        → c.state ≡ s
        → round_in s c ≡ again c'
        → measure c' < measure c
    falls waiting_magic c' s e = magic_progress c c' s e
    falls waiting_header c' s e = header_progress c c' s e
    falls waiting_payload c' s e = payload_progress c c' s e

    go :
        (s : ParseState)
        → c.state ≡ s
        → (r : Round) → round_in c.state c ≡ r
        → ((c' : StreamingFrameCodec)
            → measure c' < fuel
            → (r : Option Frame × StreamingFrameCodec) × (loop fuel c' ≡ some r))
        → (r : Option Frame × StreamingFrameCodec) × (loop (suc fuel) c ≡ some r)
    go s q (returns f c') e ih = ((f, c'), rw (e, loop))
    go s q (again c') e ih =
        let smaller : measure c' < measure c = falls s c' q (ap (λ k. round_in k c) (sym q) ∙ e) in
        let (r, done) = ih c' (omega (arith, smaller)) in (r, rw (e, loop) done)

stage-le : (s : ParseState) → stage s ≤ 2
stage-le waiting_magic = omega arith
stage-le waiting_header = omega arith
stage-le waiting_payload = omega arith

-- `TryParseFrame` always returns: the loop ends within the rounds that the model allows it, and what
-- it returns is the model's result.
pub try_parse_frame_total : (c : StreamingFrameCodec) → loop (rounds c) c ≡ some (try_parse_frame c)
unfolding try_parse_frame
try_parse_frame_total c =
    let (r, done) = loop_total (rounds c) c (omega (arith, stage-le c.state)) in
    rw (done, try_parse_frame)
