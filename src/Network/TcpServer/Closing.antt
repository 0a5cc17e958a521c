-- ===== src/Network/TcpServer/Closing.antt =====
-- `Close` with its handler on each of a list of connections, in src/network/tcp_server.cpp.
use proto_msg_queue.Prelude.{
  if_keeps, ℕ, ◌≡◌, refl, sym, ap, ◌∙◌, false, none, some, List, [], ◌∷◌, All, All-weaken, arith,
  ◌==◌, if◌then◌else◌, Bool-cases, Option-cases, inl, inr,
}
use proto_msg_queue.Map.{number_eq, lookup, lookup-insert, lookup-erase}
use proto_msg_queue.Network.Connection.{Connection}
use proto_msg_queue.Network.TcpServer.{
  TcpServer, Connections, with_lock, release, put_back, close_handler, take_out,
}
use proto_msg_queue.Network.TcpServer.Idle.{close_one, close_idle}
use proto_msg_queue.Network.TcpServer.Table.{has_number}

pub missing : (c : Connection) → none ≡ some c → ⊥
missing c e = cc

-- The table holds no closed connection under that number.
abbrev pub NotShut : ℕ → Connections → Type 0
NotShut id m = (c : Connection) → lookup id m ≡ some c → c.closed ≡ false

-- `Close` and its handler take one connection out.
close_one_lem :
    (id : ℕ) (s : TcpServer)
    → s.locked ≡ false
    → NotShut id s.connections
    → ((close_one id s).locked ≡ false)
      × ((j : ℕ)
          → lookup j (close_one id s).connections
            ≡ (if id == j then none else lookup j s.connections))
unfolding close_one close_handler take_out put_back with_lock release
close_one_lem id s free opened = elim (Option-cases (lookup id s.connections)) [
  | inl gone ↦
      rw (close_one, gone)
        (
          free,
          λ j. elim (Bool-cases (id == j)) [
            | inl same ↦
                let e : id ≡ j = ground (arith, same) in
                ap (λ n. lookup n s.connections) (sym e) ∙ gone ∙ sym (rw (same) refl)
            | inr other ↦ rw (other) refl
          ],
        )
  | inr (c, found) ↦
      rw (close_one, found, opened c found, free)
        (
          refl,
          λ j. lookup-erase id j _ ∙ elim (Bool-cases (id == j)) [
            | inl same ↦ rw (same) refl
            | inr other ↦ rw (other) (lookup-insert id j _ s.connections ∙ rw (other) refl)
          ],
        )
]

pub close_idle_lem :
    (ids : List ℕ) (s : TcpServer)
    → s.locked ≡ false
    → All (λ n. NotShut n s.connections) ids
    → (j : ℕ)
    → lookup j (close_idle ids s).connections
      ≡ (if has_number j ids then none else lookup j s.connections)
unfolding close_idle
close_idle_lem [] s free opened j = refl
close_idle_lem (id ∷ ids) s free opened j =
    let (free', one) = close_one_lem id s free opened.0 in
    let still : All (λ n. NotShut n (close_one id s).connections) ids =
      All-weaken _ _ ids
        (λ n h c found. elim (Bool-cases (id == n)) [
          | inl same ↦ absurd (missing c (sym (one n ∙ rw (same) refl) ∙ found))
          | inr other ↦ h c (sym (one n ∙ rw (other) refl) ∙ found)
        ])
        opened.1 in
    close_idle_lem ids (close_one id s) free' still j ∙ elim (Bool-cases (id == j)) [
      | inl same ↦
          rw (same) (if_keeps (λ o. o ≡ none) (has_number j ids) _ _ refl (one j ∙ rw (same) refl))
      | inr other ↦
          rw (other) (ap (λ o. if has_number j ids then none else o) (one j ∙ rw (other) refl))
    ]
