-- ===== src/Protocol/Streaming/Search.antt =====
-- What `SyncMagic` finds: the bytes that it drops hold no frame, whatever comes behind them.
use proto_msg_queue.Prelude.{
  ℕ, suc, ◌+◌, ◌-◌, ◌≤◌, ◌≡◌, refl, sym, ap, ◌∙◌, Option, none, some, List, [], ◌∷◌, ◌++◌, length,
  drop, ◌==◌, ==_iff, arith, Bool-cases, inl, inr,
}
use proto_msg_queue.Bytes.{be32}
use proto_msg_queue.Protocol.Frame.{frame_magic}
use proto_msg_queue.Protocol.Streaming.{find_magic}
use proto_msg_queue.Protocol.Streaming.Scan.{waits, scan, HasMagic, scan_skip, scan_short}

-- What the search of `SyncMagic` finds, from index `i` on.
abbrev pub Found : ℕ → List ℕ → Option ℕ → Type 0
Found i bs (some j) =
    (k : ℕ) × (j ≡ k + i)
    × HasMagic (drop k bs)
    × ((t : List ℕ) → scan (drop k bs ++ t) ≡ scan (bs ++ t))
Found i bs none =
    (scan bs ≡ waits) × ((t : List ℕ) → scan (drop (length bs - 3) bs ++ t) ≡ scan (bs ++ t))

Found-later :
    (i b : ℕ) (bs : List ℕ) (o : Option ℕ)
    → 3 ≤ length bs
    → ((t : List ℕ) → scan (b ∷ (bs ++ t)) ≡ scan (bs ++ t))
    → scan (b ∷ bs) ≡ scan bs
    → Found (i + 1) bs o
    → Found i (b ∷ bs) o
Found-later i b bs (some j) l same here (k, e, h, s) =
    (suc k, omega arith, h, λ t. s t ∙ sym (same t))
Found-later i b bs none l same here (w, s) = (
  here ∙ w,
  λ t.
      let e : suc (length bs) - 3 ≡ suc (length bs - 3) = omega arith in
      ap (λ n. scan (drop n (b ∷ bs) ++ t)) e ∙ s t ∙ sym (same t),
)

pub find_magic-Found : (i : ℕ) (bs : List ℕ) → Found i bs (find_magic i bs)
unfolding find_magic
find_magic-Found i (b0 ∷ b1 ∷ b2 ∷ b3 ∷ rest) =
    elim (Bool-cases (be32 b0 b1 b2 b3 == frame_magic)) [
      | inl hit ↦
          rw (hit, find_magic)
            (0, omega arith, record { long = omega arith; magic = (==_iff _ _).0 hit }, λ t. refl)
      | inr miss ↦
          rw (miss, find_magic)
            (Found-later i b0 (b1 ∷ b2 ∷ b3 ∷ rest) _ (omega arith)
              (λ t. scan_skip b0 b1 b2 b3 (rest ++ t) miss) (scan_skip b0 b1 b2 b3 rest miss)
              (find_magic-Found (i + 1) (b1 ∷ b2 ∷ b3 ∷ rest)))
    ]
find_magic-Found i (b0 ∷ b1 ∷ b2 ∷ []) = (scan_short _ (omega arith), λ t. refl)
find_magic-Found i (b0 ∷ b1 ∷ []) = (scan_short _ (omega arith), λ t. refl)
find_magic-Found i (b0 ∷ []) = (scan_short _ (omega arith), λ t. refl)
find_magic-Found i [] = (scan_short _ (omega arith), λ t. refl)
