-- ===== src/Network/Connection/Identity.antt =====
-- The operations of src/network/connection.cpp keep a connection's number.
use proto_msg_queue.Prelude.{
  if_keeps, ℕ, ◌+◌, ◌≡◌, refl, ◌∙◌, Bool, true, false, not, ◌||◌, Option, none, some, List, [], ◌∷◌,
  ◌++◌, ltb, length, is_empty, ◌==◌,
}
use proto_msg_queue.Map.{number_eq}
use proto_msg_queue.Protocol.Frame.{Frame}
use proto_msg_queue.Network.Connection.{
  Connection, Recv, got, peer_closed, would_block, failed, Sent, took, blocked, broken, close,
  receive, decode_input, decode_if, on_read, send_frame, send_buffered, send_zero_copy, flushed,
  after_writev,
}
use proto_msg_queue.Protocol.Codec.{encode}

-- `OnRead` and `SendFrame` keep a connection's number.
receive-id : (input : List Recv) (c : Connection) → (receive input c).1.id ≡ c.id
unfolding receive close
receive-id [] c = refl
receive-id (got bytes ∷ rest) c = receive-id rest _
receive-id (peer_closed ∷ rest) c = refl
receive-id (would_block ∷ rest) c = refl
receive-id (failed ∷ rest) c = refl

decode_if-id : (p : Bool × Connection) (now : ℕ) → (decode_if p now).1.id ≡ p.1.id
unfolding decode_if decode_input
decode_if-id (true, c) now = refl
decode_if-id (false, c) now = refl

pub on_read-id : (input : List Recv) (now : ℕ) (c : Connection) → (on_read input now c).1.id ≡ c.id
unfolding on_read
on_read-id input now c =
    if_keeps (λ (o : List Frame × Connection). o.1.id ≡ c.id) c.closed _ _ refl
      (decode_if-id (receive input c) now ∙ receive-id input c)

flushed-id : (c : Connection) (o : Option ℕ × List ℕ) → (flushed c o).1.id ≡ c.id
unfolding flushed close
flushed-id c (none, wire) = refl
flushed-id c (some total, wire) = refl

after_writev-id :
    (header payload : List ℕ) (r : Sent) (c : Connection)
    → (after_writev header payload r c).1.id ≡ c.id
unfolding after_writev close
after_writev-id header payload (took n) c =
    let P = λ (o : Bool × Connection). o.1.id ≡ c.id in
    if_keeps P (n == length header + length payload) _ _ refl (if_keeps P (n == 0) _ _ refl refl)
after_writev-id header payload blocked c = refl
after_writev-id header payload broken c = refl

pub send_frame-id :
    (f : Frame) (results : List Sent) (c : Connection) → (send_frame f results c).1.id ≡ c.id
unfolding send_frame send_buffered send_zero_copy
send_frame-id f results c =
    let P = λ (o : Bool × Connection). o.1.id ≡ c.id in
    if_keeps P c.closed _ _ refl (
      if_keeps P (not (is_empty c.write_buffer) || not c.zero_copy_enabled) _ _
        (if_keeps P (ltb c.max_write_buffer_size (length c.write_buffer + length (encode f))) _ _
          refl (flushed-id (record c { write_buffer = c.write_buffer ++ encode f }) _))
        (if_keeps P _ _ _ refl (after_writev-id _ _ _ c)))
