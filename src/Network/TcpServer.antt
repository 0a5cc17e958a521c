-- ===== src/Network/TcpServer.antt =====
-- src/network/tcp_server.cpp: the table of connections, and one round of each of the server's threads.
-- What a system call returned and each reading of the clock is an argument. Steps end where a thread
-- takes or releases `connections_mutex_`, and between the two parts of `Connection::Close`: it sets
-- `closed_`, and then its handler takes the connection out of the table under the mutex. A connection
-- that is not in the table is not followed.
pub mod Sends
pub mod Idle
pub mod Table
pub mod Reachable
pub mod Closing
pub mod Heartbeat
pub mod Sending
pub mod Deadlock
use proto_msg_queue.Prelude.{
  ℕ, ◌+◌, ◌%◌, ◌^◌, Bool, true, false, not, ◌&&◌, Option, none, some, List, [], ◌∷◌, ◌++◌, map, leb,
  filter, ◌==◌, is_some, if◌then◌else◌,
}
use proto_msg_queue.Map.{number_eq, lookup, insert, erase}
use proto_msg_queue.Common.Config.{BrokerConfig}
use proto_msg_queue.Protocol.Frame.{Frame}
use proto_msg_queue.Protocol.Streaming.{init}
use proto_msg_queue.Network.Connection.{Connection, Recv, Sent, close, on_read, send_frame}

abbrev pub Connections : Type 0
Connections = List (ℕ × Connection)

-- `class TcpServer`, with whether each descriptor is open and whether the heartbeat thread was started.
pub record TcpServer : Type 0 where
  pub config : BrokerConfig
  pub port : ℕ
  pub listening : Bool
  pub polling : Bool
  pub running : Bool
  pub heartbeat_started : Bool
  pub connections : Connections
  pub next_conn_id : ℕ
  -- Whether a thread holds `connections_mutex_`
  pub locked : Bool
  -- The connections whose close handler is still to run
  pub closing : List ℕ

-- The constructor
unfoldable pub make_server : BrokerConfig → TcpServer
make_server config = record {
  config = config;
  port = config.port;
  listening = false;
  polling = false;
  running = false;
  heartbeat_started = false;
  connections = [];
  next_conn_id = 1;
  locked = false;
  closing = [];
}

-- `Start`, by whether `socket`, `bind`, `listen` and `epoll_create1` succeed.
unfoldable pub start : Bool → Bool → Bool → Bool → TcpServer → Bool × TcpServer
start socket_ok bind_ok listen_ok epoll_ok s =
    if not (socket_ok && bind_ok && listen_ok)
    then (false, record s { listening = false })
    else if not epoll_ok
    then (false, record s { listening = false; polling = false })
    else (
      true,
      record s {
        listening = true;
        polling = true;
        running = true;
        heartbeat_started = s.config.heartbeat_enabled;
      },
    )

-- `std::lock_guard`: the result is `none` where the thread waits for the mutex. Between steps only a
-- thread that waits for the mutex itself holds it, so it waits for ever.
unfoldable pub release : {A : Type 0} → Option A × TcpServer → Option A × TcpServer
release (none, s) = (none, s)
release (some a, s) = (some a, record s { locked = false })

unfoldable pub with_lock :
    {A : Type 0} → (TcpServer → Option A × TcpServer) → TcpServer → Option A × TcpServer
unfolding release
with_lock body s = if s.locked then (none, s) else release (body (record s { locked = true }))

-- The close handler of a connection
unfoldable pub take_out : ℕ → TcpServer → Option Bool × TcpServer
take_out id s = (
  some true,
  record s {
    connections = erase id s.connections;
    closing = filter (λ n. not (n == id)) s.closing;
  },
)

unfoldable pub close_handler : ℕ → TcpServer → Option Bool × TcpServer
unfolding with_lock take_out
close_handler id = with_lock (take_out id)

-- Whether a method closed the connection, so that `Close` calls the close handler.
unfoldable pub just_closed : Connection → Connection → Bool
just_closed c c' = not c.closed && c'.closed

unfoldable pub put_back : ℕ → Connection → Connection → TcpServer → TcpServer
unfolding just_closed
put_back id c c' s = record s {
  connections = insert id c' s.connections;
  closing = if just_closed c c' then id ∷ s.closing else s.closing;
}

-- A method called on the connection of the table, without the mutex; `absent` where it is not there.
unfoldable pub call_method :
    {A : Type 0} → A → ℕ → (Connection → A × Connection) → TcpServer → A × TcpServer
unfolding put_back
call_method absent id method s = elim (lookup id s.connections) [
  | none ↦ (absent, s)
  | some c ↦ let (a, c') = method c in (a, put_back id c c' s)
]

-- The numbers of the open connections
unfoldable pub open_numbers : Connections → List ℕ
open_numbers m = map (λ e. e.0) (filter (λ e. not e.1.closed) m)

-- What `Stop` does with the table under the mutex
unfoldable pub take_all : TcpServer → Option (List Connection) × TcpServer
unfolding open_numbers
take_all s = (
  some (map (λ e. close e.1) s.connections),
  record s { connections = []; closing = open_numbers s.connections ++ s.closing },
)

-- `Stop`: the connections that it closed, whose handlers are still to run, and the server. The
-- threads are joined after this.
unfoldable pub stop : TcpServer → Option (List Connection) × TcpServer
unfolding with_lock take_all
stop s = with_lock take_all (record s { running = false; listening = false; polling = false })

-- A new `Connection`, active now.
unfoldable pub make_connection : BrokerConfig → ℕ → ℕ → Connection
make_connection config id now_ms = record {
  id = id;
  closed = false;
  read_buffer = [];
  write_buffer = [];
  codec = init;
  last_active_ms = now_ms;
  zero_copy_enabled = config.zero_copy_enabled;
  max_write_buffer_size = config.max_write_buffer_size;
  wire = [];
}

-- What one `accept` returned: a client, EAGAIN, or another error.
pub data Accept : Type 0 where
  client : Accept
  nobody : Accept
  refused : Accept

-- `connections_[conn_id] = conn`
unfoldable pub put_in : ℕ → Connection → TcpServer → Option Bool × TcpServer
put_in id c s = (some true, record s { connections = insert id c s.connections })

-- A round of `AcceptLoop`: whether it goes on, and the server.
unfoldable pub accept_round : Accept → ℕ → TcpServer → Option Bool × TcpServer
unfolding make_connection with_lock put_in
accept_round client now_ms s =
    with_lock (put_in s.next_conn_id (make_connection s.config s.next_conn_id now_ms))
      (record s { next_conn_id = (s.next_conn_id + 1) % 2 ^ 64 })
accept_round nobody now_ms s = (some true, s)
accept_round refused now_ms s = (some false, s)

-- An event of `EventLoop`: the connection is looked up under the mutex, and then reads without it;
-- the result is the frames that go to the frame handler.
unfoldable pub is_there : ℕ → TcpServer → Option Bool × TcpServer
is_there id s = (some (is_some (lookup id s.connections)), s)

unfoldable pub find_connection : ℕ → TcpServer → Option Bool × TcpServer
unfolding with_lock is_there
find_connection id = with_lock (is_there id)

unfoldable pub read_connection : ℕ → List Recv → ℕ → TcpServer → List Frame × TcpServer
unfolding call_method
read_connection id input now_ms = call_method [] id (on_read input now_ms)

-- `Close` on a connection, without its handler
unfoldable pub set_closed : ℕ → TcpServer → Bool × TcpServer
unfolding call_method
set_closed id = call_method false id (λ c. (true, close c))
