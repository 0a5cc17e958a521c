-- ===== src/Protocol/Streaming/Scan/Prefix.antt =====
-- What `scan` finds in a prefix of the bytes stays when more arrives.
use proto_msg_queue.Prelude.{
  ℕ, ◌≤◌, ◌≡◌, refl, Option, none, some, List, [], ◌∷◌, ◌++◌, length, drop, arith, length-append,
  get_or-append, take-append_le, drop-append_le, length-drop,
}
use proto_msg_queue.Protocol.Frame.{Frame, frame_header_size}
use proto_msg_queue.Protocol.Codec.{word_at, try_decode}
use proto_msg_queue.Protocol.Codec.RoundTrip.{Accepted, try_decode-Accepted}
use proto_msg_queue.Protocol.Streaming.Scan.{Outcome, yields, decoded, judge, scan, word_at-append}

pub try_decode-append :
    (s t : List ℕ) (f : Frame) (n : ℕ)
    → try_decode s ≡ (some f, n)
    → try_decode (s ++ t) ≡ (some f, n)
unfolding try_decode
try_decode-append s t f n e =
    let a : Accepted s f n = try_decode-Accepted s f n e in
    ground (
      arith,
      length-append s t,
      word_at-append s t 0 (omega (arith, a.has_header)),
      word_at-append s t 6 (omega (arith, a.has_header)),
      get_or-append s t 4 0 (omega (arith, a.has_header)),
      get_or-append s t 5 0 (omega (arith, a.has_header)),
      drop-append_le s t frame_header_size a.has_header,
      take-append_le (drop frame_header_size s) t (word_at s 6)
          (omega (arith, a.whole, length-drop frame_header_size s)),
    )

decoded-append :
    (s t : List ℕ) (f : Frame) (rest : List ℕ)
    → decoded s (try_decode s) ≡ yields f rest
    → decoded (s ++ t) (try_decode (s ++ t)) ≡ yields f (rest ++ t)
decoded-append s t f rest e = go (try_decode s) refl e
  where
    go :
        (r : Option Frame × ℕ)
        → try_decode s ≡ r
        → decoded s r ≡ yields f rest
        → decoded (s ++ t) (try_decode (s ++ t)) ≡ yields f (rest ++ t)
    go (none, n) q e = cc
    go (some g, n) q e =
        let a : Accepted s g n = try_decode-Accepted s g n q in
        let inside : n ≤ length s = omega (arith, a.consumed, a.whole) in
        rw (try_decode-append s t g n q, drop-append_le s t n inside) (cc)

-- Once the header can be judged, the judgement stays.
judge-append :
    (s t : List ℕ) (f : Frame) (rest : List ℕ) (later later' : Outcome)
    → judge s later ≡ yields f rest
    → (later ≡ yields f rest → later' ≡ yields f (rest ++ t))
    → judge (s ++ t) later' ≡ yields f (rest ++ t)
judge-append s t f rest later later' e ih = ground (
  arith,
  length-append s t,
  word_at-append s t 0,
  word_at-append s t 6,
  get_or-append s t 4 0,
  decoded-append s t f rest,
)

pub scan-append :
    (s t : List ℕ) (f : Frame) (rest : List ℕ)
    → scan s ≡ yields f rest
    → scan (s ++ t) ≡ yields f (rest ++ t)
unfolding scan
scan-append [] t f rest e = cc
scan-append (b ∷ s) t f rest e =
    judge-append (b ∷ s) t f rest (scan s) (scan (s ++ t)) e (scan-append s t f rest)
