-- ===== src/Protocol/Streaming/Scan.antt =====
-- The specification of the stream decoder: what the bytes received so far hold, with no state.
pub mod Prefix
use proto_msg_queue.Prelude.{
  ℕ, ◌+◌, ◌≤◌, ◌<◌, ◌≡◌, refl, sym, ap, ◌∙◌, ◌⊎◌, true, false, not, Option, none, some, List, [],
  ◌∷◌, ◌++◌, length, get_or, drop, ltb, ◌==◌, if◌then◌else◌, arith, length-append, get_or-append,
  take-append_le, drop-append_le, length-drop, lt→ltb,
}
use proto_msg_queue.Bytes.{be32}
use proto_msg_queue.Protocol.Frame.{
  Frame, frame_magic, frame_version, frame_header_size, max_payload_size,
}
use proto_msg_queue.Protocol.Codec.{word_at, try_decode}
use proto_msg_queue.Protocol.Codec.RoundTrip.{Accepted, try_decode-Accepted}

-- The bytes hold a frame, and then the rest; or no frame can be told from them yet.
pub data Outcome : Type 0 where
  yields : Frame → List ℕ → Outcome
  waits : Outcome

abbrev pub decoded : List ℕ → Option Frame × ℕ → Outcome
decoded s (some f, n) = yields f (drop n s)
decoded s (none, n) = waits

-- The first place where a magic word, a good version and a lawful length stand decides, by the
-- one-shot decoder. Everything before it is skipped.
abbrev pub judge : List ℕ → Outcome → Outcome
judge s later =
    if ltb (length s) 4
    then waits
    else if not (word_at s 0 == frame_magic)
    then later
    else if ltb (length s) frame_header_size
    then waits
    else if not (get_or s 4 0 == frame_version)
    then later
    else if ltb max_payload_size (word_at s 6)
    then later
    else decoded s (try_decode s)

unfoldable pub scan : List ℕ → Outcome
scan [] = waits
scan (b ∷ bs) = judge (b ∷ bs) (scan bs)

-- What is within a prefix does not change when more arrives.
pub word_at-append : (s t : List ℕ) (i : ℕ) → i + 4 ≤ length s → word_at (s ++ t) i ≡ word_at s i
word_at-append s t i h = rw (
  get_or-append s t i 0 (omega arith),
  get_or-append s t (i + 1) 0 (omega arith),
  get_or-append s t (i + 2) 0 (omega arith),
  get_or-append s t (i + 3) 0 (omega arith),
)

-- A magic word at the front.
pub record HasMagic (s : List ℕ) : Type 0 where
  pub long : 4 ≤ length s
  pub magic : word_at s 0 ≡ frame_magic

pub HasMagic-append : (s t : List ℕ) → HasMagic s → HasMagic (s ++ t)
HasMagic-append s t h = record {
  long = omega (arith, length-append s t, h.long);
  magic = word_at-append s t 0 h.long ∙ h.magic;
}

-- `scan` by its first byte, for a list that is not taken apart.
pub scan-judge : (s : List ℕ) → 0 < length s → scan s ≡ judge s (scan (drop 1 s))
unfolding scan
scan-judge [] h = absurd (omega arith)
scan-judge (b ∷ bs) h = refl

judge_not_magic :
    (s : List ℕ) (later : Outcome)
    → 4 ≤ length s
    → (word_at s 0 == frame_magic) ≡ false
    → judge s later ≡ later
judge_not_magic s later h e = ground arith

-- Without a magic word in front the first byte is skipped.
pub scan_skip :
    (b0 b1 b2 b3 : ℕ) (rest : List ℕ)
    → (be32 b0 b1 b2 b3 == frame_magic) ≡ false
    → scan (b0 ∷ b1 ∷ b2 ∷ b3 ∷ rest) ≡ scan (b1 ∷ b2 ∷ b3 ∷ rest)
scan_skip b0 b1 b2 b3 rest e =
    scan-judge (b0 ∷ b1 ∷ b2 ∷ b3 ∷ rest) (omega arith)
    ∙ judge_not_magic (b0 ∷ b1 ∷ b2 ∷ b3 ∷ rest) (scan (b1 ∷ b2 ∷ b3 ∷ rest)) (omega arith) e

pub scan_short : (s : List ℕ) → length s < 4 → scan s ≡ waits
unfolding scan
scan_short [] h = refl
scan_short (b ∷ bs) h = rw (lt→ltb (length (b ∷ bs)) 4 h)

-- A magic word before a bad header is skipped like any other byte.
pub judge_bad :
    (s : List ℕ) (later : Outcome)
    → HasMagic s
    → frame_header_size ≤ length s
    → ((get_or s 4 0 == frame_version) ≡ false) ⊎ (ltb max_payload_size (word_at s 6) ≡ true)
    → judge s later ≡ later
judge_bad s later h l bad = ground arith

pub scan_bad :
    (s t : List ℕ)
    → HasMagic s
    → frame_header_size ≤ length s
    → ((get_or s 4 0 == frame_version) ≡ false) ⊎ (ltb max_payload_size (word_at s 6) ≡ true)
    → scan (drop 1 s ++ t) ≡ scan (s ++ t)
scan_bad s t h l bad =
    ap scan (sym (drop-append_le s t 1 (omega arith)))
    ∙ sym (judge_bad (s ++ t) (scan (drop 1 (s ++ t))) (HasMagic-append s t h) long still)
    ∙ sym (scan-judge (s ++ t) (omega (arith, long)))
  where
    long : frame_header_size ≤ length (s ++ t)
    long = omega (arith, length-append s t)

    still :
        ((get_or (s ++ t) 4 0 == frame_version) ≡ false)
        ⊎ (ltb max_payload_size (word_at (s ++ t) 6) ≡ true)
    still = rw (get_or-append s t 4 0 (omega arith), word_at-append s t 6 (omega arith)) bad

-- With a magic word in front and no full header nothing is decided.
pub scan_no_header : (s : List ℕ) → HasMagic s → length s < frame_header_size → scan s ≡ waits
scan_no_header s h l = scan-judge s (omega (arith, h.long)) ∙ ground arith

-- Behind a lawful header the one-shot decoder decides.
pub scan_header :
    (s : List ℕ)
    → HasMagic s
    → frame_header_size ≤ length s
    → get_or s 4 0 ≡ frame_version
    → word_at s 6 ≤ max_payload_size
    → scan s ≡ decoded s (try_decode s)
scan_header s h l v m = scan-judge s (omega arith) ∙ ground arith

decoded-shorter :
    (s : List ℕ) (f : Frame) (rest : List ℕ) (r : Option Frame × ℕ)
    → try_decode s ≡ r
    → decoded s r ≡ yields f rest
    → length rest + frame_header_size ≤ length s
decoded-shorter s f rest (none, n) q e = absurd (cc)
decoded-shorter s f rest (some g, n) q e =
    let a : Accepted s g n = try_decode-Accepted s g n q in
    let same : drop n s ≡ rest = cc in
    omega (arith, ap length same, length-drop n s, a.consumed, a.whole)

judge-shorter :
    (s : List ℕ) (f : Frame) (rest : List ℕ) (later : Outcome)
    → judge s later ≡ yields f rest
    → (later ≡ yields f rest → length rest + frame_header_size ≤ length s)
    → length rest + frame_header_size ≤ length s
judge-shorter s f rest later e ih = ground (arith, decoded-shorter s f rest (try_decode s) refl)

-- A frame takes ten bytes at least.
pub scan-shorter :
    (s : List ℕ) (f : Frame) (rest : List ℕ)
    → scan s ≡ yields f rest
    → length rest + frame_header_size ≤ length s
unfolding scan
scan-shorter [] f rest e = absurd (cc)
scan-shorter (b ∷ s) f rest e =
    judge-shorter (b ∷ s) f rest (scan s) e (λ q. omega (arith, scan-shorter s f rest q))
