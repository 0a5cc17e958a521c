-- ===== src/Protocol/Streaming/Resync.antt =====
-- What `scan` makes of an encoded frame, and of stray bytes before it.
use proto_msg_queue.Prelude.{
  ℕ, ◌+◌, ◌≡◌, refl, sym, ap, ◌∙◌, false, some, List, [], ◌∷◌, ◌++◌, length, arith, ◌==◌,
  drop-append, append_assoc, length-append, ◌≤◌,
}
use proto_msg_queue.Protocol.Frame.{Frame, frame_magic, frame_header_size}
use proto_msg_queue.Protocol.Codec.{encode, word_at, try_decode}
use proto_msg_queue.Protocol.Codec.RoundTrip.{
  IsSendable, received, try_decode-encode, length-encode, Accepted, try_decode-Accepted,
}
use proto_msg_queue.Protocol.Streaming.Scan.{
  yields, decoded, scan, scan_header, scan_skip, scan_short, word_at-append,
}

-- An encoded frame comes out whole, and leaves what follows it.
pub scan-encode :
    (f : Frame) (rest : List ℕ) → IsSendable f → scan (encode f ++ rest) ≡ yields (received f) rest
scan-encode f rest s =
    scan_header (encode f ++ rest) (record { long = omega (arith, a.has_header); magic = a.magic })
      a.has_header a.version a.limit
    ∙ ap (decoded (encode f ++ rest)) decodes
    ∙ ap (yields (received f))
        (drop-append (encode f) rest (frame_header_size + length f.payload) (sym (length-encode f)))
  where
    decodes :
        try_decode (encode f ++ rest) ≡ (some (received f), frame_header_size + length f.payload)
    decodes = try_decode-encode f rest s

    a : Accepted (encode f ++ rest) (received f) (frame_header_size + length f.payload)
    a = try_decode-Accepted _ _ _ decodes

-- No magic word begins in the stray bytes, though it may take in bytes behind them.
abbrev pub IsStray : List ℕ → List ℕ → Type 0
IsStray [] s = Unit {0}
IsStray (b ∷ junk) s = ((word_at (b ∷ (junk ++ s)) 0 == frame_magic) ≡ false) × IsStray junk s

-- Four bytes behind them are enough to tell.
pub IsStray-append : (junk s t : List ℕ) → 4 ≤ length s → IsStray junk s → IsStray junk (s ++ t)
IsStray-append [] s t long h = tt
IsStray-append (b ∷ junk) s t long h = (
  ap (λ l. word_at (b ∷ l) 0 == frame_magic) (sym (append_assoc junk s t))
      ∙ ap (λ w. w == frame_magic)
          (word_at-append (b ∷ (junk ++ s)) t 0 (omega (arith, length-append junk s, long)))
      ∙ h.0,
  IsStray-append junk s t long h.1,
)

-- A byte at which no magic word begins is skipped.
scan_other :
    (b : ℕ) (s : List ℕ) → (word_at (b ∷ s) 0 == frame_magic) ≡ false → scan (b ∷ s) ≡ scan s
scan_other b (b1 ∷ b2 ∷ b3 ∷ rest) n = scan_skip b b1 b2 b3 rest n
scan_other b s n = scan_short (b ∷ s) (omega arith) ∙ sym (scan_short s (omega arith))

pub scan_stray : (junk s : List ℕ) → IsStray junk s → scan (junk ++ s) ≡ scan s
scan_stray [] s h = refl
scan_stray (b ∷ junk) s h = scan_other b (junk ++ s) h.0 ∙ scan_stray junk s h.1
