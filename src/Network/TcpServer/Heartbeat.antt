-- ===== src/Network/TcpServer/Heartbeat.antt =====
-- A round of `HeartbeatLoop` in src/network/tcp_server.cpp that no other thread interrupts.
use proto_msg_queue.Prelude.{
  if_keeps, ℕ, ◌≡◌, refl, sym, ap, ◌∙◌, Bool, true, false, ◌||◌, Option, none, some, List, [], ◌∷◌,
  All, All-weaken, subst, arith, ◌==◌, ==_refl, some_inj, if◌then◌else◌, Bool-cases, Option-cases,
  inl, inr,
}
use proto_msg_queue.Map.{number_eq, lookup}
use proto_msg_queue.Network.Connection.{Connection}
use proto_msg_queue.Network.TcpServer.{TcpServer, Connections, with_lock, release}
use proto_msg_queue.Network.TcpServer.Idle.{
  is_idle, idle_conns, heartbeat_round, find_idle, idle_found,
}
use proto_msg_queue.Network.TcpServer.Table.{IsTable, IsDistinct, has_number}
use proto_msg_queue.Network.TcpServer.Closing.{missing, NotShut, close_idle_lem}

differ : (b : Bool) → b ≡ true → b ≡ false → ⊥
differ b e f = cc

module _ (timeout now : ℕ) where
  abbrev IsFound : Connections → ℕ → Type 0
  IsFound m n = (c : Connection) × (lookup n m ≡ some c) × (is_idle timeout now c ≡ true)

  -- What is collected is in the table and idle.
  idle_IsFound : (m : Connections) → IsDistinct m → All (IsFound m) (idle_conns timeout now m)
  unfolding idle_conns IsDistinct lookup
  idle_IsFound [] h = tt
  idle_IsFound ((k, d) ∷ m) h =
      let others : All (IsFound ((k, d) ∷ m)) (idle_conns timeout now m) =
        All-weaken (IsFound m) _ (idle_conns timeout now m)
          (λ n (c, found, idle). elim (Bool-cases (k == n)) [
            | inl same ↦
                let e : k ≡ n = ground (arith, same) in
                absurd (missing c (sym (ap (λ i. lookup i m) (sym e) ∙ h.0) ∙ found))
            | inr other ↦ (c, rw (lookup, other) found, idle)
          ])
          (idle_IsFound m h.1) in
      elim (Bool-cases (is_idle timeout now d)) [
        | inl idle ↦ rw (idle) ((d, rw (lookup, ==_refl k) refl, idle), others)
        | inr busy ↦ rw (busy) others
      ]

  -- What is in the table and idle is collected.
  has_number-idle :
      (id : ℕ) (c : Connection) (m : Connections)
      → lookup id m ≡ some c
      → is_idle timeout now c ≡ true
      → has_number id (idle_conns timeout now m) ≡ true
  unfolding idle_conns lookup
  has_number-idle id c [] found idle = absurd (cc)
  has_number-idle id c ((n, k) ∷ m) found idle = elim (Bool-cases (n == id)) [
    | inl same ↦
        let here : k ≡ c = some_inj k c (sym (rw (lookup, same) refl) ∙ found) in
        let k_idle : is_idle timeout now k ≡ true = ap (is_idle timeout now) here ∙ idle in
        rw (k_idle) (rw (same) refl)
    | inr other ↦
        let ih = has_number-idle id c m (sym (rw (lookup, other) refl) ∙ found) idle in
        if_keeps (λ l. has_number id l ≡ true) (is_idle timeout now k) _ _ (rw (other) ih) ih
  ]

-- A predicate of all of a list holds of what is in it.
All-has_number : (P : ℕ → Type 0) (n : ℕ) (l : List ℕ) → All P l → has_number n l ≡ true → P n
All-has_number P n [] h e = absurd (cc)
All-has_number P n (k ∷ l) h e = elim (Bool-cases (k == n)) [
  | inl same ↦ subst P (ground (arith, same)) h.0
  | inr other ↦ All-has_number P n l h.1 (sym (rw (other) refl) ∙ e)
]

idle_open : (timeout now : ℕ) (c : Connection) → is_idle timeout now c ≡ true → c.closed ≡ false
unfolding is_idle
idle_open timeout now c h = ground arith

-- Whether what a look-up found is an idle connection.
unfoldable pub is_idle_at : ℕ → ℕ → Option Connection → Bool
is_idle_at timeout now none = false
is_idle_at timeout now (some c) = is_idle timeout now c

has_number-is_idle_at :
    (timeout now id : ℕ) (m : Connections)
    → IsDistinct m
    → has_number id (idle_conns timeout now m) ≡ is_idle_at timeout now (lookup id m)
unfolding is_idle_at
has_number-is_idle_at timeout now id m h =
    elim (Bool-cases (has_number id (idle_conns timeout now m))) [
      | inl told ↦
          let (c, found, idle) =
            All-has_number (IsFound timeout now m) id _ (idle_IsFound timeout now m h) told in
          told ∙ sym (ap (is_idle_at timeout now) found ∙ idle)
      | inr not_told ↦ elim (Option-cases (lookup id m)) [
        | inl gone ↦ not_told ∙ sym (ap (is_idle_at timeout now) gone)
        | inr (c, found) ↦ elim (Bool-cases (is_idle timeout now c)) [
          | inl idle ↦ absurd (differ _ (has_number-idle timeout now id c m found idle) not_told)
          | inr busy ↦ not_told ∙ sym (ap (is_idle_at timeout now) found ∙ busy)
        ]
      ]
    ]

module _ (now : ℕ) (s : TcpServer) (table : IsTable s) (free : s.locked ≡ false) where
  reported_now :
      (heartbeat_round now s).0 ≡ some (idle_conns s.config.heartbeat_timeout_ms now s.connections)
  unfolding heartbeat_round find_idle idle_found with_lock release
  reported_now = rw (free) refl

  lookup-heartbeat_round :
      (id : ℕ)
      → lookup id (heartbeat_round now s).1.connections ≡ (
          if has_number id (idle_conns s.config.heartbeat_timeout_ms now s.connections)
          then none
          else lookup id s.connections)
  unfolding heartbeat_round find_idle idle_found with_lock release
  lookup-heartbeat_round id =
      let timeout = s.config.heartbeat_timeout_ms in
      let opened : All (λ n. NotShut n s.connections) (idle_conns timeout now s.connections) =
        All-weaken (IsFound timeout now s.connections) _ _
          (λ n (c, found, idle) d other.
            ap (λ x. x.closed) (some_inj d c (sym other ∙ found)) ∙ idle_open timeout now c idle)
          (idle_IsFound timeout now s.connections table.distinct) in
      rw (free) (
        close_idle_lem (idle_conns timeout now s.connections) (record s { locked = false }) refl
          opened id)

  -- In a table as every reachable server has it, while nobody holds the mutex and no other thread comes
  -- between: a round of the heartbeat reports exactly the numbers of the open connections of the table
  -- that were idle for the timeout, takes exactly these out, and leaves every other connection as it
  -- was.
  pub heartbeat_round_lem :
      (ids : List ℕ) × ((heartbeat_round now s).0 ≡ some ids)
      × ((id : ℕ)
          → let idle = is_idle_at s.config.heartbeat_timeout_ms now (lookup id s.connections) in
            (has_number id ids ≡ idle)
            × (lookup id (heartbeat_round now s).1.connections
                ≡ (if idle then none else lookup id s.connections)))
  heartbeat_round_lem = (
    idle_conns s.config.heartbeat_timeout_ms now s.connections,
    reported_now,
    λ id.
        let told =
          has_number-is_idle_at s.config.heartbeat_timeout_ms now id s.connections table.distinct in
        (
          told,
          lookup-heartbeat_round id ∙ ap (λ b. if b then none else lookup id s.connections) told,
        ),
  )

or_right : (a b : Bool) → b ≡ true → (a || b) ≡ true
or_right true b h = refl
or_right false b h = h

All-if_has_number {κ} :
    (P : ℕ → Type κ) (ns : List ℕ) → ((n : ℕ) → has_number n ns ≡ true → P n) → All P ns
All-if_has_number P [] h = tt
All-if_has_number P (n ∷ ns) h = (
  h n (rw (==_refl n) refl),
  All-if_has_number P ns (λ k e. h k (or_right (n == k) (has_number k ns) e)),
)

module _ (now : ℕ) (s : TcpServer) (table : IsTable s) (free : s.locked ≡ false) where
  pub reported_gone :
      (ids : List ℕ) × ((heartbeat_round now s).0 ≡ some ids)
      × All (λ n. lookup n (heartbeat_round now s).1.connections ≡ none) ids
  reported_gone = (
    _,
    reported_now now s table free,
    All-if_has_number _ _ (λ n e. lookup-heartbeat_round now s table free n ∙ rw (e) refl),
  )
