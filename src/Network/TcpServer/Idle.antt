-- ===== src/Network/TcpServer/Idle.antt =====
-- `HeartbeatLoop` of src/network/tcp_server.cpp.
use proto_msg_queue.Prelude.{
  ℕ, ◌+◌, Bool, not, ◌&&◌, Option, none, some, List, [], ◌∷◌, leb, if◌then◌else◌,
}
use proto_msg_queue.Map.{number_eq, lookup}
use proto_msg_queue.Network.Connection.{Connection, close}
use proto_msg_queue.Network.TcpServer.{Connections, TcpServer, with_lock, close_handler, put_back}

-- Whether `HeartbeatLoop` finds the connection idle at a time.
unfoldable pub is_idle : ℕ → ℕ → Connection → Bool
is_idle timeout_ms now_ms c = not c.closed && leb (c.last_active_ms + timeout_ms) now_ms

-- The loop over the table: `idle_conn_ids`
unfoldable pub idle_conns : ℕ → ℕ → Connections → List ℕ
idle_conns timeout_ms now_ms [] = []
idle_conns timeout_ms now_ms ((id, c) ∷ rest) =
    let idle = idle_conns timeout_ms now_ms rest in
    if is_idle timeout_ms now_ms c then id ∷ idle else idle

-- What `HeartbeatLoop` collects under the mutex
unfoldable pub idle_found : ℕ → TcpServer → Option (List ℕ) × TcpServer
unfolding idle_conns
idle_found now_ms s = (some (idle_conns s.config.heartbeat_timeout_ms now_ms s.connections), s)

unfoldable pub find_idle : ℕ → TcpServer → Option (List ℕ) × TcpServer
unfolding with_lock idle_found
find_idle now_ms = with_lock (idle_found now_ms)

-- `Close` on each, with its handler, if no other thread comes between.
unfoldable pub close_one : ℕ → TcpServer → TcpServer
unfolding put_back close_handler
close_one id s = elim (lookup id s.connections) [
  | none ↦ s
  | some c ↦ let s' = put_back id c (close c) s in if c.closed then s' else (close_handler id s').1
]

unfoldable pub close_idle : List ℕ → TcpServer → TcpServer
unfolding close_one
close_idle [] s = s
close_idle (id ∷ ids) s = close_idle ids (close_one id s)

-- A round of `HeartbeatLoop` that no other thread interrupts: the numbers that the idle handler is
-- told of, in turn, and the server. Its parts, `find_idle`, `set_closed` and `close_handler`, are steps
-- of their own where threads interleave.
unfoldable pub heartbeat_round : ℕ → TcpServer → Option (List ℕ) × TcpServer
unfolding find_idle close_idle
heartbeat_round now_ms s =
    let (idle, s') = find_idle now_ms s in
    elim idle [ none ↦ (none, s') | some ids ↦ (some ids, close_idle ids s') ]
