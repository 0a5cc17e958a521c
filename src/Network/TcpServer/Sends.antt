-- ===== src/Network/TcpServer/Sends.antt =====
-- `SendTo` and `Broadcast` of src/network/tcp_server.cpp, and the broker's own calls of `SendFrame`.
use proto_msg_queue.Prelude.{ℕ, Bool, true, false, Option, none, some, List, [], ◌∷◌, if◌then◌else◌}
use proto_msg_queue.Map.{number_eq, lookup}
use proto_msg_queue.Protocol.Frame.{Frame}
use proto_msg_queue.Network.Connection.{Connection, Sent, send_frame}
use proto_msg_queue.Network.TcpServer.{
  Connections, TcpServer, with_lock, close_handler, just_closed, put_back, call_method,
}

-- `conn->SendFrame(frame)` on a connection that a caller holds, as the broker's answers are sent.
unfoldable pub send_direct : ℕ → Frame → List Sent → TcpServer → Bool × TcpServer
unfolding call_method
send_direct id f results = call_method false id (send_frame f results)

-- The answer of a method once the handler that it called has come back
unfoldable pub answer_after : Bool → Option Bool × TcpServer → Option Bool × TcpServer
answer_after ok (none, s) = (none, s)
answer_after ok (some b, s) = (some ok, s)

-- `SendFrame` on one connection of the table by a thread that holds the mutex
unfoldable pub send_locked :
    ℕ → Connection → Bool × Connection → TcpServer → Option Bool × TcpServer
unfolding put_back just_closed close_handler answer_after
send_locked id c (ok, c') s =
    let s' = put_back id c c' s in
    if just_closed c c' then answer_after ok (close_handler id s') else (some ok, s')

unfoldable pub send_found : ℕ → Frame → List Sent → TcpServer → Option Bool × TcpServer
unfolding send_locked
send_found id f results s = elim (lookup id s.connections) [
  | none ↦ (some false, s)
  | some c ↦ send_locked id c (send_frame f results c) s
]

-- `SendTo`
unfoldable pub send_to : ℕ → Frame → List Sent → TcpServer → Option Bool × TcpServer
unfolding with_lock send_found
send_to id f results = with_lock (send_found id f results)

-- The loop goes on with the next connection, unless the thread waits.
unfoldable pub go_on : Option Bool → TcpServer → Option Bool × TcpServer → Option Bool × TcpServer
go_on none s more = (none, s)
go_on (some ok) s more = more

-- The loop of `Broadcast`, with what `send` returns for each connection.
unfoldable pub broadcast_loop :
    Frame → (ℕ → List Sent) → Connections → TcpServer → Option Bool × TcpServer
unfolding send_locked go_on
broadcast_loop f results [] s = (some true, s)
broadcast_loop f results ((id, c) ∷ rest) s =
    let (l, s') = send_locked id c (send_frame f (results id) c) s in
    go_on l s' (broadcast_loop f results rest s')

unfoldable pub send_each : Frame → (ℕ → List Sent) → TcpServer → Option Bool × TcpServer
unfolding broadcast_loop
send_each f results s = broadcast_loop f results s.connections s

-- `Broadcast`
unfoldable pub broadcast : Frame → (ℕ → List Sent) → TcpServer → Option Bool × TcpServer
unfolding with_lock send_each
broadcast f results = with_lock (send_each f results)
