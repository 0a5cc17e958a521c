-- ===== src/Network/TcpClient.antt =====
-- src/network/tcp_client.cpp: the client's connection, its heartbeat and the numbers of its messages.
-- What a system call returned, each reading of the clock and the random numbers are arguments.
pub mod ProducerId
pub mod Sequence
use proto_msg_queue.Prelude.{
  ℕ, ◌+◌, ◌%◌, ◌^◌, ◌*◌, Bool, true, false, not, ◌&&◌, Option, none, some, List, [], ltb,
  if◌then◌else◌,
}
use proto_msg_queue.Map.{Text}
use proto_msg_queue.Common.Config.{BrokerConfig}
use proto_msg_queue.Protocol.Frame.{Frame, FrameMessageType, default_frame}
use proto_msg_queue.Protocol.Streaming.{init}
use proto_msg_queue.Network.Connection
use proto_msg_queue.Network.Connection.{Connection, Recv, Sent, close, on_read}

-- `class TcpClient`
pub record TcpClient : Type 0 where
  pub connected : Bool
  pub connection : Option Connection
  pub config : Option BrokerConfig
  pub producer_id : Text
  pub next_sequence_id : ℕ
  pub last_pong_ms : ℕ

-- The settings that a `Connection` reads, where its `BrokerConfig` may be null.
unfoldable pub zero_copy_of : Option BrokerConfig → Bool
zero_copy_of none = true
zero_copy_of (some config) = config.zero_copy_enabled

unfoldable pub write_limit_of : Option BrokerConfig → ℕ
write_limit_of none = 8 * 1024 * 1024
write_limit_of (some config) = config.max_write_buffer_size

-- The new `Connection` of `Connect`
unfoldable pub client_connection : Option BrokerConfig → ℕ → Connection
client_connection config now_ms = record {
  id = 1;
  closed = false;
  read_buffer = [];
  write_buffer = [];
  codec = init;
  last_active_ms = now_ms;
  zero_copy_enabled = zero_copy_of config;
  max_write_buffer_size = write_limit_of config;
  wire = [];
}

-- `Connect`, by whether `socket`, `inet_pton` and `connect` succeed, with the name from
-- `GenerateProducerId` and two readings of the clock.
unfoldable pub connect :
    Bool → Bool → Bool → Text → ℕ → ℕ → Option BrokerConfig → TcpClient → Bool × TcpClient
unfolding client_connection
connect socket_ok address_ok connect_ok producer_id made now_ms config c =
    let c' = record c { config = config; producer_id = producer_id; next_sequence_id = 1 } in
    if not (socket_ok && address_ok && connect_ok) then (false, c') else (
      true,
      record c' {
        connected = true;
        connection = some (client_connection config made);
        last_pong_ms = now_ms;
      },
    )

unfoldable pub close_if : Option Connection → Option Connection
close_if none = none
close_if (some k) = some (close k)

-- `Disconnect`: the connection that it closed, and the client.
unfoldable pub disconnect : TcpClient → Option Connection × TcpClient
unfolding close_if
disconnect c = (close_if c.connection, record c { connected = false; connection = none })

-- `IsConnected`
unfoldable pub is_live : Option Connection → Bool
is_live none = false
is_live (some k) = not k.closed

unfoldable pub is_connected : TcpClient → Bool
unfolding is_live
is_connected c = c.connected && is_live c.connection

unfoldable pub send_on : Frame → List Sent → Option Connection → TcpClient → Bool × TcpClient
send_on f results none c = (false, c)
send_on f results (some k) c =
    if k.closed
    then (false, c)
    else let (ok, k') = Connection.send_frame f results k in (ok, record c { connection = some k' })

-- `SendFrame`
unfoldable pub send_request : Frame → List Sent → TcpClient → Bool × TcpClient
unfolding send_on
send_request f results c = if not c.connected then (false, c) else send_on f results c.connection c

-- The frame handler that `Connect` sets: the frame that it passes on, if any, and the client.
unfoldable pub on_frame :
    FrameMessageType → Frame → ℕ → List Sent → TcpClient → Option Frame × TcpClient
on_frame FrameMessageType.ping f now_ms results c =
    (none, (send_request (record default_frame { msg_type = FrameMessageType.pong }) results c).1)
on_frame FrameMessageType.pong f now_ms results c = (some f, record c { last_pong_ms = now_ms })
on_frame _ f now_ms results c = (some f, c)

-- `GetNextSequenceId`
unfoldable pub get_next_sequence_id : TcpClient → ℕ × TcpClient
get_next_sequence_id c =
    (c.next_sequence_id, record c { next_sequence_id = (c.next_sequence_id + 1) % 2 ^ 64 })

unfoldable pub ping_timeout : Option BrokerConfig → ℕ
ping_timeout none = 15000
ping_timeout (some config) = config.heartbeat_timeout_ms

-- A round of `PingLoop` after its sleep: whether it goes on, and the client.
unfoldable pub ping_round : ℕ → List Sent → TcpClient → Bool × TcpClient
unfolding close_if
ping_round now_ms results c =
    let (ok, c') =
      send_request (record default_frame { msg_type = FrameMessageType.ping }) results c in
    if not c.connected
    then (false, c)
    else if not ok
    then (false, c')
    else if ltb (c'.last_pong_ms + ping_timeout c.config) now_ms
    then (false, record c' { connection = close_if c'.connection })
    else (true, c')

unfoldable pub read_on :
    List Recv → ℕ → Option Connection → TcpClient → Bool × List Frame × TcpClient
read_on input now_ms none c = (false, [], c)
read_on input now_ms (some k) c =
    if k.closed
    then (false, [], c)
    else let (fs, k') = on_read input now_ms k in (true, fs, record c { connection = some k' })

-- A round of `ReadLoop`: whether it goes on, the frames given to `on_frame`, and the client.
unfoldable pub read_round : List Recv → ℕ → TcpClient → Bool × List Frame × TcpClient
unfolding read_on
read_round input now_ms c =
    if not c.connected then (false, [], c) else read_on input now_ms c.connection c
