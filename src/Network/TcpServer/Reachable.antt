-- ===== src/Network/TcpServer/Reachable.antt =====
-- The table of src/network/tcp_server.cpp over any interleaving of the steps of its threads.
use proto_msg_queue.Prelude.{
  if_keeps, ℕ, ◌+◌, ◌%◌, ◌^◌, ◌≡◌, ◌<◌, refl, Bool, true, false, not, ◌&&◌, List, [], All,
  All-weaken, arith,
}
use proto_msg_queue.Map.{number_eq, All-insert_entry}
use proto_msg_queue.Common.Config.{BrokerConfig}
use proto_msg_queue.Protocol.Frame.{Frame}
use proto_msg_queue.Network.Connection.{Recv, Sent, close, on_read, send_frame}
use proto_msg_queue.Network.Connection.Identity.{on_read-id, send_frame-id}
use proto_msg_queue.Network.TcpServer.{
  TcpServer, make_server, start, stop, take_all, Accept, client, nobody, refused, accept_round,
  put_in, make_connection, close_handler, find_connection, is_there, read_connection, set_closed,
}
use proto_msg_queue.Network.TcpServer.Sends.{send_found, send_each, send_direct, send_to, broadcast}
use proto_msg_queue.Network.TcpServer.Idle.{find_idle, idle_found}
use proto_msg_queue.Network.TcpServer.Sending.{send_found-IsTable, send_each-IsTable}
use proto_msg_queue.Network.TcpServer.Table.{
  IsTable, IsEntry, has_number, with_lock-IsTable, close_handler-IsTable, call_method-IsTable,
  IsDistinct, IsDistinct-insert,
}

-- One step of a thread of the server, of the broker, or of another caller. A close handler runs for a
-- connection that was closed before.
pub data Step (s : TcpServer) : TcpServer → Type 0 where
  started : (a b c d : Bool) → Step s (start a b c d s).1
  accepted : (a : Accept) (now : ℕ) → s.next_conn_id + 1 < 2 ^ 64 → Step s (accept_round a now s).1
  looked_up : (id : ℕ) → Step s (find_connection id s).1
  read : (id : ℕ) (input : List Recv) (now : ℕ) → Step s (read_connection id input now s).1
  answered : (id : ℕ) (f : Frame) (results : List Sent) → Step s (send_direct id f results s).1
  sent : (id : ℕ) (f : Frame) (results : List Sent) → Step s (send_to id f results s).1
  cast : (f : Frame) (results : ℕ → List Sent) → Step s (broadcast f results s).1
  beat : (now : ℕ) → Step s (find_idle now s).1
  shut : (id : ℕ) → Step s (set_closed id s).1
  handled : (id : ℕ) → has_number id s.closing ≡ true → Step s (close_handler id s).1
  stopped : Step s (stop s).1

-- Any number of steps
pub data Steps (s : TcpServer) : TcpServer → Type 0 where
  here : Steps s s
  then_step : {t u : TcpServer} → Steps s t → Step t u → Steps s u

abbrev pub Reach : BrokerConfig → TcpServer → Type 0
Reach config = Steps (make_server config)

start-IsTable : (a b c d : Bool) (s : TcpServer) → IsTable s → IsTable (start a b c d s).1
unfolding start
start-IsTable a b c d s h =
    let P = λ (o : Bool × TcpServer). IsTable o.1 in
    let same : (x y z v : Bool)
        → IsTable (record s { listening = x; polling = y; running = z; heartbeat_started = v }) =
      λ x y z v. record { entries = h.entries; distinct = h.distinct; next_pos = h.next_pos } in
    if_keeps P (not (a && b && c)) _ _ (same _ _ _ _)
      (if_keeps P (not d) _ _ (same _ _ _ _) (same _ _ _ _))

stop-IsTable : (s : TcpServer) → IsTable s → IsTable (stop s).1
unfolding stop take_all IsDistinct
stop-IsTable s h =
    with_lock-IsTable take_all (record s { running = false; listening = false; polling = false })
      (λ k. record { entries = tt; distinct = tt; next_pos = k.next_pos })
      (record { entries = h.entries; distinct = h.distinct; next_pos = h.next_pos })

accept_round-IsTable :
    (a : Accept) (now : ℕ) (s : TcpServer)
    → s.next_conn_id + 1 < 2 ^ 64
    → IsTable s
    → IsTable (accept_round a now s).1
unfolding accept_round put_in make_connection
accept_round-IsTable client now s small h =
    let id = s.next_conn_id in
    let next : (id + 1) % 2 ^ 64 ≡ id + 1 = omega arith in
    let counted_on : All (IsEntry ((id + 1) % 2 ^ 64) s.closing) s.connections =
      All-weaken _ _ s.connections
        (λ e k. record {
          own_id = k.own_id;
          counted = k.counted;
          given = omega (arith, k.given, next);
          awaited = k.awaited;
        })
        h.entries in
    with_lock-IsTable (put_in id (make_connection s.config id now))
      (record s { next_conn_id = (id + 1) % 2 ^ 64 })
      (λ k. record {
        entries =
            All-insert_entry _ id _ s.connections
              (record {
                own_id = refl;
                counted = h.next_pos;
                given = omega (arith, next);
                awaited = λ e. absurd (cc e);
              })
              counted_on;
        distinct = IsDistinct-insert id _ s.connections h.distinct;
        next_pos = omega (arith, next);
      })
      (record { entries = counted_on; distinct = h.distinct; next_pos = omega (arith, next) })
accept_round-IsTable nobody now s small h = h
accept_round-IsTable refused now s small h = h

Step-IsTable : {s t : TcpServer} → Step s t → IsTable s → IsTable t
unfolding find_connection is_there read_connection send_direct set_closed send_to broadcast
    find_idle idle_found close
Step-IsTable {s} (started a b c d) h = start-IsTable a b c d s h
Step-IsTable {s} (accepted a now small) h = accept_round-IsTable a now s small h
Step-IsTable {s} (looked_up id) h = with_lock-IsTable (is_there id) s (λ k. k) h
Step-IsTable {s} (read id input now) h =
    call_method-IsTable [] id (on_read input now) s (on_read-id input now) h
Step-IsTable {s} (answered id f results) h =
    call_method-IsTable false id (send_frame f results) s (send_frame-id f results) h
Step-IsTable {s} (sent id f results) h =
    with_lock-IsTable (send_found id f results) s (send_found-IsTable id f results _ refl) h
Step-IsTable {s} (cast f results) h =
    with_lock-IsTable (send_each f results) s (send_each-IsTable f results _ refl) h
Step-IsTable {s} (beat now) h = with_lock-IsTable (idle_found now) s (λ k. k) h
Step-IsTable {s} (shut id) h = call_method-IsTable false id (λ c. (true, close c)) s (λ c. refl) h
Step-IsTable {s} (handled id waits) h = close_handler-IsTable id s h
Step-IsTable {s} stopped h = stop-IsTable s h

Steps-IsTable : {s t : TcpServer} → Steps s t → IsTable s → IsTable t
Steps-IsTable here h = h
Steps-IsTable (then_step r st) h = Step-IsTable st (Steps-IsTable r h)

-- However the steps of the threads interleave, as long as fewer than 2 ^ 64 connections were
-- accepted: every connection in the table stands under its own number, which lies between 1 and the
-- next one, and no number stands there twice; and a connection in the table is open, or its close
-- handler is still to run.
pub Reach-IsTable : (config : BrokerConfig) (s : TcpServer) → Reach config s → IsTable s
unfolding make_server IsDistinct
Reach-IsTable config s r =
    Steps-IsTable r (record { entries = tt; distinct = tt; next_pos = omega arith })
