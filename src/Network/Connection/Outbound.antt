-- ===== src/Network/Connection/Outbound.antt =====
-- What `SendFrame` puts on the wire: each frame that it accepts, whole and in order.
use proto_msg_queue.Prelude.{
  is_empty, ℕ, zero, suc, ◌+◌, ◌-◌, ◌≤◌, ◌<◌, ◌^◌, ◌%◌, ◌≡◌, inl, inr, refl, sym, ap, ◌∙◌, Bool,
  true, false, Option, none, some, List, [], ◌∷◌, ◌++◌, length, take, drop, arith, append_assoc,
  append-nil, ltb, length-append, Bool-cases, tests, not, ◌||◌, ◌==◌, if◌then◌else◌, drop_all,
  take_all, drop-append_le, drop-append_ge, take-append-drop,
}
use proto_msg_queue.Protocol.Frame.{Frame, frame_header_size}
use proto_msg_queue.Protocol.Codec.{encode, encode_header_to_buffer}
use proto_msg_queue.Network.Connection.{
  Connection, Sent, took, blocked, broken, send_loop, flushed, send_buffered, after_writev, unsent,
  send_zero_copy, send_frame, close, first_result,
}

-- All bytes that the connection has accepted: those that the kernel took, and those that wait.
abbrev pub accepted : Connection → List ℕ
accepted c = c.wire ++ c.write_buffer

-- A frame is accepted whole, or refused with the connection as it was, or the connection is closed.
pub data SendOutcome (f : Frame) (c : Connection) (r : Bool × Connection) : Type 0 where
  sends :
      r.0 ≡ true → r.1.closed ≡ c.closed → accepted r.1 ≡ accepted c ++ encode f → SendOutcome f c r
  refuses : r.0 ≡ false → r.1 ≡ c → SendOutcome f c r
  closes : r.0 ≡ false → r.1.closed ≡ true → SendOutcome f c r

take-nil : (n : ℕ) → take {A = ℕ} n [] ≡ []
take-nil zero = refl
take-nil (suc n) = refl

take-drop-take : (n k : ℕ) (b : List ℕ) → take n b ++ take k (drop n b) ≡ take (n + k) b
take-drop-take zero k b = ap (λ n. take n b) (omega arith)
take-drop-take (suc n) k [] = take-nil k ∙ sym (take-nil (suc n + k))
take-drop-take (suc n) k (x ∷ b) =
    let e : suc (n + k) ≡ suc n + k = omega arith in
    ap (◌∷◌ x) (take-drop-take n k b) ∙ ap (λ m. take m (x ∷ b)) e

-- What the loop has sent is the front of the buffer.
send_loop_lem :
    (results : List Sent) (buffer : List ℕ) (total total' : ℕ) (wire wire' : List ℕ)
    → send_loop results buffer total (wire ++ take total buffer) ≡ (some total', wire')
    → wire' ≡ wire ++ take total' buffer
unfolding send_loop
send_loop_lem [] buffer total total' wire wire' e = ground arith
send_loop_lem (took n ∷ results) buffer total total' wire wire' e =
    ground (arith, shift, send_loop_lem results buffer (total + n) total' wire wire')
  where
    shift :
        (wire ++ take total buffer) ++ take n (drop total buffer) ≡ wire ++ take (total + n) buffer
    shift = append_assoc wire (take total buffer) _ ∙ ap (◌++◌ wire) (take-drop-take total n buffer)
send_loop_lem (blocked ∷ results) buffer total total' wire wire' e = ground arith
send_loop_lem (broken ∷ results) buffer total total' wire wire' e = ground arith

-- The buffered path, by what its loop returned.
flushed-SendOutcome :
    (f : Frame) (c : Connection) (r : Option ℕ × List ℕ)
    → ((total : ℕ) → r.0 ≡ some total → r.1 ≡ c.wire ++ take total (c.write_buffer ++ encode f))
    → SendOutcome f c (flushed (record c { write_buffer = c.write_buffer ++ encode f }) r)
unfolding flushed close
flushed-SendOutcome f c (none, wire) h = closes refl refl
flushed-SendOutcome f c (some total, wire) h =
    let b = c.write_buffer ++ encode f in
    sends refl refl (
      ap (λ w. w ++ drop total b) (h total refl)
      ∙ append_assoc c.wire (take total b) (drop total b)
      ∙ ap (◌++◌ c.wire) (take-append-drop total b)
      ∙ sym (append_assoc c.wire c.write_buffer (encode f)))

send_buffered-SendOutcome :
    (f : Frame) (results : List Sent) (c : Connection) → SendOutcome f c (send_buffered f results c)
unfolding send_buffered
send_buffered-SendOutcome f results c =
    elim (Bool-cases (ltb c.max_write_buffer_size (length c.write_buffer + length (encode f)))) [
      | inl full ↦ rw (full, send_buffered) (refuses refl refl)
      | inr room ↦ rw (room, send_buffered) (flushed-SendOutcome f c (loop c.wire) sent)
    ]
  where
    loop : List ℕ → Option ℕ × List ℕ
    loop wire = send_loop results (c.write_buffer ++ encode f) 0 wire

    sent :
        (total : ℕ)
        → (loop c.wire).0 ≡ some total
        → (loop c.wire).1 ≡ c.wire ++ take total (c.write_buffer ++ encode f)
    sent total e =
        send_loop_lem results (c.write_buffer ++ encode f) 0 total c.wire (loop c.wire).1
          (ap loop (append-nil c.wire) ∙ ground arith)

-- The kernel takes no more than it is offered.
abbrev pub IsHonest : Frame → Sent → Type 0
IsHonest f (took n) = n ≤ frame_header_size + length f.payload
IsHonest f blocked = Unit {0}
IsHonest f broken = Unit {0}

drop_if :
    (k m : ℕ) (p : List ℕ)
    → k ≤ length p
    → m ≡ length p - k
    → (if ltb 0 m then drop k p else []) ≡ drop k p
drop_if k m p h e = ground (arith, drop_all k p)

-- What is left after `n` bytes is what is kept.
unsent_lem :
    (header payload : List ℕ) (n : ℕ)
    → n ≤ length header + length payload
    → length payload < 2 ^ 63
    → let (h, p) = unsent header payload n in h ++ p ≡ drop n (header ++ payload)
unfolding unsent
unsent_lem header payload n h small = elim (Bool-cases (ltb n (length header))) [
  | inl less ↦
      let wanted : length header - (length header - n) ≡ n = omega (tests, less) in
      let over : ltb (length header) n ≡ false = ground arith in
      let some_left : ltb 0 (length header - n) ≡ true = ground arith in
      rw (less, over, some_left, wanted, unsent)
        (ap (λ t. drop n header ++ t)
            (drop_if 0 ((length payload + 2 ^ 64 - 0) % 2 ^ 64) payload (omega arith) (omega arith))
          ∙ sym (drop-append_le header payload n (omega (tests, less))))
  | inr more ↦
      let k = n - length header in
      rw (more, unsent)
        (ap (λ m. if ltb 0 ((length payload + 2 ^ 64 - m) % 2 ^ 64) then drop m payload else [])
            (payload_sent more)
          ∙ drop_if k ((length payload + 2 ^ 64 - k) % 2 ^ 64) payload (omega arith) (omega arith)
          ∙ sym (drop-append_ge header payload n (omega (tests, more))))
]
  where
    payload_sent :
        ltb n (length header) ≡ false
        → (if ltb (length header) n then n - length header else 0) ≡ n - length header
    payload_sent more = ground arith

joined :
    (wire waiting x rest encoded : List ℕ)
    → waiting ≡ []
    → x ++ rest ≡ encoded
    → (wire ++ x) ++ (waiting ++ rest) ≡ (wire ++ waiting) ++ encoded
joined wire waiting x rest encoded e h = rw (e, ← h) (simp (append-nil, append_assoc))

after_writev-SendOutcome :
    (f : Frame) (header : List ℕ) (r : Sent) (c : Connection)
    → c.write_buffer ≡ []
    → length header ≡ frame_header_size
    → header ++ f.payload ≡ encode f
    → length f.payload < 2 ^ 63
    → IsHonest f r
    → SendOutcome f c (after_writev header f.payload r c)
unfolding after_writev close
after_writev-SendOutcome f header (took n) c b l e p h =
    elim (Bool-cases (n == length header + length f.payload)) [
      | inl all ↦
          rw (all, after_writev)
            (sends refl refl (
              ap (λ w. (c.wire ++ take n (header ++ f.payload)) ++ w)
                (sym (append-nil c.write_buffer))
              ∙ joined c.wire c.write_buffer (take n (header ++ f.payload)) [] (encode f) b (
                  append-nil (take n (header ++ f.payload))
                  ∙ take_all n (header ++ f.payload) (whole all)
                  ∙ e)))
      | inr part ↦ elim (Bool-cases (n == 0)) [
        | inl nothing ↦ rw (part, nothing, after_writev) (closes refl refl)
        | inr some_of_it ↦
            rw (part, some_of_it, after_writev)
              (sends refl refl (
                ap (λ w. (c.wire ++ take n (header ++ f.payload)) ++ w)
                  (append_assoc c.write_buffer (unsent header f.payload n).0
                    (unsent header f.payload n).1)
                ∙ joined c.wire c.write_buffer (take n (header ++ f.payload)) _ (encode f) b (
                    ap (λ w. take n (header ++ f.payload) ++ w)
                      (unsent_lem header f.payload n (omega (arith, l)) p)
                    ∙ take-append-drop n (header ++ f.payload)
                    ∙ e)))
      ]
    ]
  where
    whole : (n == length header + length f.payload) ≡ true → length (header ++ f.payload) ≤ n
    whole all = ground (arith, length-append header f.payload)
after_writev-SendOutcome f header blocked c b l e p h =
    sends refl refl (simp append_assoc (ap (λ t. c.wire ++ (c.write_buffer ++ t)) e))
after_writev-SendOutcome f header broken c b l e p h = closes refl refl

send_zero_copy-SendOutcome :
    (f : Frame) (results : List Sent) (c : Connection)
    → c.write_buffer ≡ []
    → length f.payload < 2 ^ 63
    → IsHonest f (first_result results)
    → SendOutcome f c (send_zero_copy f results c)
unfolding send_zero_copy encode_header_to_buffer encode
send_zero_copy-SendOutcome f results c b p h =
    after_writev-SendOutcome f _ (first_result results) c b refl refl p h

if-SendOutcome :
    (f : Frame) (c : Connection) (b : Bool) {x y : Bool × Connection}
    → (b ≡ true → SendOutcome f c x)
    → (b ≡ false → SendOutcome f c y)
    → SendOutcome f c (if b then x else y)
if-SendOutcome f c true hx hy = hx refl
if-SendOutcome f c false hx hy = hy refl

is_empty_lem : (l : List ℕ) → is_empty l ≡ true → l ≡ []
is_empty_lem [] e = refl
is_empty_lem (b ∷ l) e = absurd (cc)

-- `SendFrame` returns true and has accepted the whole frame behind all that was accepted before, or
-- returns false and leaves the connection as it was, or returns false and closes the connection;
-- for a payload below 2 ^ 63 bytes, and a `writev` that takes no more than it is offered.
pub send_frame-SendOutcome :
    (f : Frame) (results : List Sent) (c : Connection)
    → length f.payload < 2 ^ 63
    → IsHonest f (first_result results)
    → SendOutcome f c (send_frame f results c)
unfolding send_frame
send_frame-SendOutcome f results c p h =
    if-SendOutcome f c c.closed (λ shut. refuses refl refl)
      λ still_open.
        if-SendOutcome f c (not (is_empty c.write_buffer) || not c.zero_copy_enabled)
          (λ buffered. send_buffered-SendOutcome f results c)
          (λ direct. send_zero_copy-SendOutcome f results c (nothing_waits direct) p h)
  where
    nothing_waits :
        (not (is_empty c.write_buffer) || not c.zero_copy_enabled) ≡ false → c.write_buffer ≡ []
    nothing_waits e = is_empty_lem c.write_buffer (ground arith)
