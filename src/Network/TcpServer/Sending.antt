-- ===== src/Network/TcpServer/Sending.antt =====
-- `SendTo` and `Broadcast` of src/network/tcp_server.cpp, which hold `connections_mutex_` while they
-- send.
use proto_msg_queue.Prelude.{
  ℕ, ◌≡◌, refl, Bool, true, false, ◌⊎◌, none, some, List, [], ◌∷◌, All, All-weaken, Bool-cases,
  Option-cases, inl, inr,
}
use proto_msg_queue.Map.{number_eq, lookup, All-lookup_entry}
use proto_msg_queue.Protocol.Frame.{Frame}
use proto_msg_queue.Network.Connection.{Connection, Sent, send_frame}
use proto_msg_queue.Network.Connection.Identity.{send_frame-id}
use proto_msg_queue.Network.TcpServer.{
  TcpServer, Connections, with_lock, close_handler, just_closed, put_back,
}
use proto_msg_queue.Network.TcpServer.Sends.{
  answer_after, send_locked, send_found, go_on, broadcast_loop, send_each,
}
use proto_msg_queue.Network.TcpServer.Table.{IsEntry, IsEntry-more, IsTable, put_back-IsTable}

-- A thread that holds the mutex waits for it exactly where `SendFrame` closes the connection.
pub send_locked_cases :
    (id : ℕ) (c : Connection) (r : Bool × Connection) (s : TcpServer)
    → s.locked ≡ true
    → ((just_closed c r.1 ≡ true) × (send_locked id c r s ≡ (none, put_back id c r.1 s)))
      ⊎ ((just_closed c r.1 ≡ false) × (send_locked id c r s ≡ (some r.0, put_back id c r.1 s)))
unfolding send_locked close_handler with_lock put_back answer_after
send_locked_cases id c (ok, c') s held = elim (Bool-cases (just_closed c c')) [
  | inl shut ↦ inl (shut, rw (send_locked, shut, held) refl)
  | inr left ↦ inr (left, rw (send_locked, left) refl)
]

sent-IsTable :
    (id : ℕ) (c : Connection) (f : Frame) (results : List Sent) (s : TcpServer)
    → IsTable s
    → IsEntry s.next_conn_id s.closing (id, c)
    → IsTable (put_back id c (send_frame f results c).1 s)
sent-IsTable id c f results s h entry =
    put_back-IsTable id c (send_frame f results c).1 s h entry (send_frame-id f results c)

pub send_found-IsTable :
    (id : ℕ) (f : Frame) (results : List Sent) (s : TcpServer)
    → s.locked ≡ true
    → IsTable s
    → IsTable (send_found id f results s).1
unfolding send_found
send_found-IsTable id f results s held h = elim (Option-cases (lookup id s.connections)) [
  | inl missing ↦ rw (missing, send_found) h
  | inr (c, found) ↦
      let t =
        sent-IsTable id c f results s h (All-lookup_entry _ id c s.connections h.entries found) in
      elim (send_locked_cases id c (send_frame f results c) s held) [
        | inl (shut, e) ↦ rw (found, send_found, e) t
        | inr (left, e) ↦ rw (found, send_found, e) t
      ]
]

broadcast_loop-IsTable :
    (f : Frame) (results : ℕ → List Sent) (l : Connections) (s : TcpServer)
    → s.locked ≡ true
    → IsTable s
    → All (IsEntry s.next_conn_id s.closing) l
    → IsTable (broadcast_loop f results l s).1
unfolding broadcast_loop go_on put_back
broadcast_loop-IsTable f results [] s held h entries = h
broadcast_loop-IsTable f results ((id, c) ∷ rest) s held h entries =
    let r = send_frame f (results id) c in
    let t = sent-IsTable id c f (results id) s h entries.0 in
    elim (send_locked_cases id c r s held) [
      | inl (shut, e) ↦ rw (e) t
      | inr (left, e) ↦ rw (e) (
          broadcast_loop-IsTable f results rest (put_back id c r.1 s) held t (
            All-weaken _ _ rest (IsEntry-more s.next_conn_id id s.closing (just_closed c r.1))
              entries.1))
    ]

pub send_each-IsTable :
    (f : Frame) (results : ℕ → List Sent) (s : TcpServer)
    → s.locked ≡ true
    → IsTable s
    → IsTable (send_each f results s).1
unfolding send_each
send_each-IsTable f results s held h =
    broadcast_loop-IsTable f results s.connections s held h h.entries
