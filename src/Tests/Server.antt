-- ===== src/Tests/Server.antt =====
-- A server that accepted two clients, and a client of its own.
use proto_msg_queue.Prelude.{
  ℕ, ◌≡◌, ◌↔◌, refl, true, false, none, some, List, [], ◌∷◌, All, length, arith, if◌then◌else◌,
}
use proto_msg_queue.Map.{number_eq, lookup, insert}
use proto_msg_queue.Common.Config.{default_config}
use proto_msg_queue.Common.DedupWindow.{DedupWindow, is_duplicate, has_seen}
use proto_msg_queue.Protocol.Frame.{Frame}
use proto_msg_queue.Protocol.Codec.{encode_header_to_buffer}
use proto_msg_queue.Network.Connection.{
  Connection, Sent, broken, close, send_frame, send_zero_copy, after_writev,
}
use proto_msg_queue.Network.TcpClient.{TcpClient}
use proto_msg_queue.Network.TcpClient.ProducerId.{generate_producer_id, generate_producer_id_lem}
use proto_msg_queue.Network.TcpClient.Sequence.{publish_run, publish_run_fresh}
use proto_msg_queue.Network.TcpServer.{
  TcpServer, make_server, make_connection, client, accept_round, put_in, with_lock, release,
  set_closed, call_method, put_back, just_closed, close_handler,
}
use proto_msg_queue.Network.TcpServer.Sends.{send_to}
use proto_msg_queue.Network.TcpServer.Idle.{
  heartbeat_round, find_idle, idle_found, is_idle, idle_conns,
}
use proto_msg_queue.Network.TcpServer.Heartbeat.{is_idle_at, heartbeat_round_lem}
use proto_msg_queue.Network.TcpServer.Deadlock.{send_to-deadlocked}
use proto_msg_queue.Network.TcpServer.Reachable.{
  Reach, Steps, here, then_step, accepted, shut, Reach-IsTable,
}
use proto_msg_queue.Network.TcpServer.Table.{IsTable, has_number}
use proto_msg_queue.Broker.Departed.Idle.{report_idle, heartbeat_forgets}
use proto_msg_queue.Topics.TopicManager.Gone.{IsGone}
use proto_msg_queue.Tests.Data.{ping_frame}
use proto_msg_queue.Tests.Broker.{broker}

abbrev new_server : TcpServer
new_server = make_server default_config

abbrev server : TcpServer
server = (accept_round client 1000 new_server).1

-- The connection of another client is closed, and its handler is still to run.
abbrev closing_server : TcpServer
closing_server = (set_closed 2 (accept_round client 2000 server).1).1

server_reached : Reach default_config server
unfolding make_server
server_reached = then_step here (accepted client 1000 (omega arith))

closing_reached : Reach default_config closing_server
unfolding make_server accept_round with_lock release put_in
closing_reached = then_step (then_step server_reached (accepted client 2000 (omega arith))) (shut 2)

Reach-IsTable_example : IsTable closing_server
Reach-IsTable_example = Reach-IsTable default_config closing_server closing_reached

abbrev accepted_connection : Connection
accepted_connection = make_connection default_config 1 1000

in_table : lookup 1 closing_server.connections ≡ some accepted_connection
unfolding lookup insert accept_round make_server make_connection with_lock release put_in set_closed
    call_method put_back
in_table = refl

nobody_holds : closing_server.locked ≡ false
unfolding lookup insert accept_round make_server make_connection with_lock release put_in set_closed
    call_method put_back
nobody_holds = refl

-- It is still in the table, closed.
closed_in_table :
    lookup 2 closing_server.connections ≡ some (close (make_connection default_config 2 2000))
unfolding lookup insert accept_round make_server make_connection with_lock release put_in set_closed
    call_method put_back
closed_in_table = refl

send_to-deadlocked_example :
    (((send_to 1 ping_frame (broken ∷ []) closing_server).0 ≡ none) ↔ (
      just_closed accepted_connection (send_frame ping_frame (broken ∷ []) accepted_connection).1
      ≡ true))
    × ((send_to 1 ping_frame (broken ∷ []) closing_server).0 ≡ none
        → (t : TcpServer) → Steps (send_to 1 ping_frame (broken ∷ []) closing_server).1 t
        → (j : ℕ) (g : Frame) (more : List Sent)
        → ((send_to j g more t).0 ≡ none) × ((close_handler j t).0 ≡ none))
send_to-deadlocked_example =
    send_to-deadlocked 1 ping_frame (broken ∷ []) closing_server accepted_connection nobody_holds
      in_table

-- The write fails, so the thread waits.
closed_by_send :
    just_closed accepted_connection (send_frame ping_frame (broken ∷ []) accepted_connection).1
    ≡ true
unfolding just_closed make_connection send_frame send_zero_copy encode_header_to_buffer after_writev
closed_by_send = refl

-- Twenty seconds later the open connection is idle.
heartbeat_round_lem_example :
    (ids : List ℕ) × ((heartbeat_round 21000 closing_server).0 ≡ some ids)
    × ((id : ℕ)
        → let idle =
            is_idle_at closing_server.config.heartbeat_timeout_ms 21000
              (lookup id closing_server.connections) in
          (has_number id ids ≡ idle)
          × (lookup id (heartbeat_round 21000 closing_server).1.connections
              ≡ (if idle then none else lookup id closing_server.connections)))
heartbeat_round_lem_example =
    heartbeat_round_lem 21000 closing_server Reach-IsTable_example nobody_holds

reported : (heartbeat_round 21000 closing_server).0 ≡ some (1 ∷ [])
unfolding lookup insert accept_round make_server make_connection with_lock release put_in set_closed
    call_method put_back heartbeat_round find_idle idle_found idle_conns is_idle close
reported = refl

heartbeat_forgets_example :
    (ids : List ℕ) × ((heartbeat_round 21000 closing_server).0 ≡ some ids)
    × All
        (λ n.
          (lookup n (heartbeat_round 21000 closing_server).1.connections ≡ none)
          × IsGone n (report_idle ids broker).topic_manager)
        ids
heartbeat_forgets_example =
    heartbeat_forgets 21000 closing_server broker Reach-IsTable_example nobody_holds

generate_producer_id_lem_example :
    ◌≡◌ {A = ℕ} 5 5 × ◌≡◌ {A = ℕ} 6 6 × (length (generate_producer_id 5 6) ≡ 32)
generate_producer_id_lem_example =
    generate_producer_id_lem 5 6 5 6 (omega arith) (omega arith) (omega arith) (omega arith) refl

abbrev producer : TcpClient
producer = record {
  connected = true;
  connection = none;
  config = none;
  producer_id = 112 ∷ [];
  next_sequence_id = 1;
  last_pong_ms = 0;
}

abbrev window : DedupWindow
window = record { producers = []; max_producers = 10 }

publish_run_fresh_example :
    is_duplicate
      (publish_run (λ i. 7) 3 producer window).0.producer_id
      (publish_run (λ i. 7) 3 producer window).0.next_sequence_id
      (publish_run (λ i. 7) 3 producer window).1
    ≡ false
unfolding is_duplicate lookup has_seen
publish_run_fresh_example = publish_run_fresh (λ i. 7) 3 producer window (omega arith) (λ s h. refl)
