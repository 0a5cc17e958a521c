-- ===== src/Network/TcpServer/Deadlock.antt =====
-- `SendTo` of src/network/tcp_server.cpp, where the connection closes while it sends: `Close` calls
-- the close handler, which takes the mutex that `SendTo` holds.
use proto_msg_queue.Prelude.{
  ℕ, ◌+◌, ◌%◌, ◌^◌, ◌≡◌, ◌↔◌, refl, ap, ◌∙◌, Bool, true, false, not, ◌&&◌, Option, none, some, List,
  [], if_keeps, Option-cases, inl, inr,
}
use proto_msg_queue.Map.{number_eq, lookup}
use proto_msg_queue.Protocol.Frame.{Frame}
use proto_msg_queue.Network.Connection.{Connection, Sent, send_frame}
use proto_msg_queue.Network.TcpServer.{
  TcpServer, start, stop, client, nobody, refused, accept_round, find_connection, read_connection,
  set_closed, with_lock, release, close_handler, just_closed, put_back, call_method, put_in,
  make_connection, is_there, take_out, take_all,
}
use proto_msg_queue.Network.TcpServer.Sends.{send_direct, send_to, send_found, broadcast, send_each}
use proto_msg_queue.Network.TcpServer.Idle.{find_idle, idle_found}
use proto_msg_queue.Network.TcpServer.Reachable.{
  Step, started, accepted, looked_up, read, answered, sent, cast, beat, shut, handled, stopped,
  Steps, here, then_step,
}
use proto_msg_queue.Network.TcpServer.Sending.{send_locked_cases}

-- A thread that wants the mutex waits, and changes nothing.
held_waits :
    {A : Type 0} (body : TcpServer → Option A × TcpServer) (s : TcpServer)
    → s.locked ≡ true
    → with_lock body s ≡ (none, s)
unfolding with_lock
held_waits body s held = rw (held) refl

call_method_held :
    {A : Type 0} (absent : A) (id : ℕ) (method : Connection → A × Connection) (s : TcpServer)
    → s.locked ≡ true
    → (call_method absent id method s).1.locked ≡ true
unfolding call_method put_back
call_method_held absent id method s held = elim (Option-cases (lookup id s.connections)) [
  | inl missing ↦ rw (missing, call_method) held
  | inr (c, found) ↦ rw (found, call_method) held
]

still_held :
    {A : Type 0} (body : TcpServer → Option A × TcpServer) (s : TcpServer)
    → s.locked ≡ true
    → (with_lock body s).1.locked ≡ true
still_held body s held = ap (λ o. o.1.locked) (held_waits body s held) ∙ held

start_held : (a b c d : Bool) (s : TcpServer) → s.locked ≡ true → (start a b c d s).1.locked ≡ true
unfolding start
start_held a b c d s held =
    let P = λ (o : Bool × TcpServer). o.1.locked ≡ true in
    if_keeps P (not (a && b && c)) _ _ held (if_keeps P (not d) _ _ held held)

Step-held : {s t : TcpServer} → Step s t → s.locked ≡ true → t.locked ≡ true
unfolding find_connection read_connection send_direct set_closed send_to broadcast find_idle stop
    close_handler accept_round
Step-held {s} (started a b c d) held = start_held a b c d s held
Step-held {s} (accepted client now small) held =
    still_held (put_in s.next_conn_id (make_connection s.config s.next_conn_id now))
      (record s { next_conn_id = (s.next_conn_id + 1) % 2 ^ 64 }) held
Step-held {s} (accepted nobody now small) held = held
Step-held {s} (accepted refused now small) held = held
Step-held {s} (looked_up id) held = still_held (is_there id) s held
Step-held {s} (read id input now) held = call_method_held [] id _ s held
Step-held {s} (answered id f results) held = call_method_held false id _ s held
Step-held {s} (sent id f results) held = still_held (send_found id f results) s held
Step-held {s} (cast f results) held = still_held (send_each f results) s held
Step-held {s} (beat now) held = still_held (idle_found now) s held
Step-held {s} (shut id) held = call_method_held false id _ s held
Step-held {s} (handled id waits) held = still_held (take_out id) s held
Step-held {s} stopped held =
    still_held take_all (record s { running = false; listening = false; polling = false }) held

Steps-held : {s t : TcpServer} → Steps s t → s.locked ≡ true → t.locked ≡ true
Steps-held here held = held
Steps-held (then_step r st) held = Step-held st (Steps-held r held)

answers : (b : Bool) → some b ≡ none → ⊥
answers b e = cc

differs : (b : Bool) → b ≡ true → b ≡ false → ⊥
differs b e f = cc

module _ (id : ℕ) (f : Frame) (results : List Sent) (s : TcpServer) (c : Connection) where
  -- What `SendTo` comes to: the thread waits, and the mutex is held.
  SendsTo : Option Bool × TcpServer → Type 0
  SendsTo o =
      ((o.0 ≡ none) ↔ (just_closed c (send_frame f results c).1 ≡ true))
      × (o.0 ≡ none → o.1.locked ≡ true)

  send_to-SendsTo :
      s.locked ≡ false → lookup id s.connections ≡ some c → SendsTo (send_to id f results s)
  unfolding send_to with_lock send_found release put_back SendsTo
  send_to-SendsTo free found =
      elim (send_locked_cases id c (send_frame f results c) (record s { locked = true }) refl) [
        | inl (shuts, e) ↦
            rw (send_to, with_lock, free, send_found, found, e) ((λ w. shuts, λ w. refl), λ w. refl)
        | inr (stays, e) ↦
            rw (send_to, with_lock, free, send_found, found, e)
              (
                (λ w. absurd (answers _ w), λ w. absurd (differs _ w stays)),
                λ w. absurd (answers _ w),
              )
      ]

  -- While nobody holds the mutex, `SendTo` to a connection of the table waits for the mutex that it
  -- holds itself exactly when `SendFrame` closes that connection; and then, whatever steps the threads
  -- still take, every call of `SendTo` waits as well, and no close handler takes a connection out.
  pub send_to-deadlocked :
      s.locked ≡ false
      → lookup id s.connections ≡ some c
      → (((send_to id f results s).0 ≡ none) ↔ (just_closed c (send_frame f results c).1 ≡ true))
        × ((send_to id f results s).0 ≡ none
            → (t : TcpServer) → Steps (send_to id f results s).1 t
            → (j : ℕ) (g : Frame) (more : List Sent)
            → ((send_to j g more t).0 ≡ none) × ((close_handler j t).0 ≡ none))
  unfolding send_to close_handler SendsTo
  send_to-deadlocked free found =
      let (exactly, holds) = send_to-SendsTo free found in
      (
        exactly,
        λ waits t r j g more.
            let held = Steps-held r (holds waits) in
            (
              ap (λ o. o.0) (held_waits (send_found j g more) t held),
              ap (λ o. o.0) (held_waits (take_out j) t held),
            ),
      )
