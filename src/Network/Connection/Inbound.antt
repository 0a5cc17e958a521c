-- ===== src/Network/Connection/Inbound.antt =====
-- The frames that a connection hands over are those that the bytes hold, however they arrive.
use proto_msg_queue.Prelude.{
  ℕ, zero, suc, ◌<◌, ◌≡◌, refl, sym, ap, ◌∙◌, subst, Option, none, some, List, [], ◌∷◌, ◌++◌,
  length, arith,
}
use proto_msg_queue.Protocol.Frame.{Frame}
use proto_msg_queue.Protocol.Streaming.{StreamingFrameCodec, try_parse_frame}
use proto_msg_queue.Protocol.Streaming.Scan.{yields, waits, scan, scan-shorter}
use proto_msg_queue.Protocol.Streaming.Scan.Prefix.{scan-append}
use proto_msg_queue.Protocol.Streaming.Refine.{Agrees, Refines, try_parse_frame-Refines}
use proto_msg_queue.Protocol.Streaming.States.{IsGood, IsGood-start}
use proto_msg_queue.Network.Connection.{parse_frames}

-- The bytes `s` hold the frames `fs`, and then no further frame.
abbrev pub Holds : List ℕ → List Frame → Type 0
Holds s [] = scan s ≡ waits
Holds s (f ∷ fs) = (s' : List ℕ) × (scan s ≡ yields f s') × Holds s' fs

-- The bytes `s` begin with the frames `fs`, which leave `rest`.
abbrev pub Begins : List ℕ → List Frame → List ℕ → Type 0
Begins s [] rest = s ≡ rest
Begins s (f ∷ fs) rest = (s' : List ℕ) × (scan s ≡ yields f s') × Begins s' fs rest

pub Begins-append :
    (s : List ℕ) (fs : List Frame) (rest t : List ℕ)
    → Begins s fs rest
    → Begins (s ++ t) fs (rest ++ t)
Begins-append s [] rest t e = ap (λ l. l ++ t) e
Begins-append s (f ∷ fs) rest t (s', y, b) =
    (s' ++ t, scan-append s t f s' y, Begins-append s' fs rest t b)

-- Equal meanings hold equal frames.
pub Holds-same : (s s' : List ℕ) (fs : List Frame) → scan s ≡ scan s' → Holds s fs → Holds s' fs
Holds-same s s' [] e h = sym e ∙ h
Holds-same s s' (f ∷ fs) e (r, y, h) = (r, sym e ∙ y, h)

pub Holds-Begins :
    (s : List ℕ) (fs gs : List Frame) (rest : List ℕ)
    → Begins s fs rest
    → Holds rest gs
    → Holds s (fs ++ gs)
Holds-Begins s [] gs rest e h = subst (λ l. Holds l gs) (sym e) h
Holds-Begins s (f ∷ fs) gs rest (s', y, b) h = (s', y, Holds-Begins s' fs gs rest b h)

yields_inj : (f g : Frame) (s t : List ℕ) → yields f s ≡ yields g t → (f ≡ g) × (s ≡ t)
yields_inj f g s t e = (cc, cc)

-- There is one list of frames that the bytes hold.
pub Holds-unique : (s : List ℕ) (fs gs : List Frame) → Holds s fs → Holds s gs → fs ≡ gs
Holds-unique s [] [] h k = refl
Holds-unique s [] (g ∷ gs) h (r, y, k) = cc
Holds-unique s (f ∷ fs) [] (r, y, h) k = cc
Holds-unique s (f ∷ fs) (g ∷ gs) (r, y, h) (r', y', k) =
    let both = yields_inj f g r r' (sym y ∙ y') in
    cc (both.0, Holds-unique r fs gs h (subst (λ l. Holds l gs) (sym both.1) k))

-- What a run of the parse loop leaves: the frames that the bytes begin with, and a codec that
-- stands for the rest, in which there is no frame yet.
abbrev pub Parsed : List ℕ → List Frame × StreamingFrameCodec → Type 0
Parsed s (fs, k) =
    (rest : List ℕ) × Begins s fs rest × IsGood k × Agrees rest k.buffer × (scan rest ≡ waits)

pub parse_frames-Parsed :
    (fuel : ℕ) (k : StreamingFrameCodec)
    → IsGood k
    → length k.buffer < fuel
    → Parsed k.buffer (parse_frames fuel k)
unfolding parse_frames
parse_frames-Parsed zero k g h = absurd (omega arith)
parse_frames-Parsed (suc fuel) k g h =
    go (try_parse_frame k).0 refl (try_parse_frame-Refines k g) (parse_frames-Parsed fuel)
  where
    k' : StreamingFrameCodec
    k' = (try_parse_frame k).1

    go :
        (o : Option Frame)
        → (try_parse_frame k).0 ≡ o
        → Refines k.buffer (o, k')
        → ((k' : StreamingFrameCodec)
            → IsGood k'
            → length k'.buffer < fuel
            → Parsed k'.buffer (parse_frames fuel k'))
        → Parsed k.buffer (parse_frames (suc fuel) k)
    go none q (g', a, w) ih = rw (q, parse_frames) (k.buffer, refl, g', a, w)
    go (some f) q (m, y) ih =
        let (rest, b, g', a, w) =
          ih k' (IsGood-start k' m) (omega (arith, scan-shorter k.buffer f k'.buffer y)) in
        rw (q, parse_frames) (rest, (k'.buffer, y, b), g', a, w)
