-- ===== src/Network/TcpServer/Table.antt =====
-- The table of src/network/tcp_server.cpp is kept by each of the server's steps.
use proto_msg_queue.Prelude.{
  if_keeps, ℕ, ◌≡◌, ◌<◌, refl, sym, ap, ◌∙◌, Bool, true, false, not, ◌||◌, Option, none, some, List,
  [], ◌∷◌, All, All-weaken, Option-cases, Bool-cases, inl, inr, arith, ◌==◌, if◌then◌else◌, filter,
}
use proto_msg_queue.Map.{
  number_eq, lookup, insert, erase, lookup-insert, lookup-erase, All-insert_entry, All-lookup_entry,
}
use proto_msg_queue.Network.Connection.{Connection}
use proto_msg_queue.Network.TcpServer.{
  TcpServer, Connections, with_lock, release, take_out, close_handler, just_closed, put_back,
  call_method,
}

-- Whether a number is in a list.
abbrev pub has_number : ℕ → List ℕ → Bool
has_number id [] = false
has_number id (n ∷ ns) = (n == id) || has_number id ns

-- A connection under its own number, which was given out; its close handler is still to run if it is
-- closed.
pub record IsEntry (next : ℕ) (closing : List ℕ) (e : ℕ × Connection) : Type 0 where
  pub own_id : e.1.id ≡ e.0
  pub counted : 0 < e.0
  pub given : e.0 < next
  pub awaited : e.1.closed ≡ true → has_number e.0 closing ≡ true

-- No number is there twice.
unfoldable pub IsDistinct : Connections → Type 0
IsDistinct [] = Unit {0}
IsDistinct ((id, c) ∷ m) = (lookup id m ≡ none) × IsDistinct m

pub record IsTable (s : TcpServer) : Type 0 where
  pub entries : All (IsEntry s.next_conn_id s.closing) s.connections
  pub distinct : IsDistinct s.connections
  pub next_pos : 0 < s.next_conn_id

pub IsDistinct-insert :
    (id : ℕ) (c : Connection) (m : Connections) → IsDistinct m → IsDistinct (insert id c m)
unfolding IsDistinct insert lookup
IsDistinct-insert id c [] h = (refl, tt)
IsDistinct-insert id c ((j, d) ∷ m) h = elim (Bool-cases (j == id)) [
  | inl same ↦
      let here : j ≡ id = ground (arith, same) in
      rw (same) (ap (λ n. lookup n m) (sym here) ∙ h.0, h.1)
  | inr other ↦
      let apart : (id == j) ≡ false = ground (arith, other) in
      rw (other) (lookup-insert id j c m ∙ rw (apart) h.0, IsDistinct-insert id c m h.1)
]

pub IsDistinct-erase : (id : ℕ) (m : Connections) → IsDistinct m → IsDistinct (erase id m)
unfolding IsDistinct erase lookup
IsDistinct-erase id [] h = tt
IsDistinct-erase id ((j, d) ∷ m) h = elim (Bool-cases (j == id)) [
  | inl same ↦ rw (same) (IsDistinct-erase id m h.1)
  | inr other ↦
      let apart : (id == j) ≡ false = ground (arith, other) in
      rw (other) (lookup-erase id j m ∙ rw (apart) h.0, IsDistinct-erase id m h.1)
]

-- What is left after an erasure has another number.
All-erase_others {κ} :
    (P : ℕ × Connection → Type κ) (id : ℕ) (m : Connections)
    → All P m
    → All (λ e. P e × ((e.0 == id) ≡ false)) (erase id m)
unfolding erase
All-erase_others P id [] h = tt
All-erase_others P id ((j, d) ∷ m) h = elim (Bool-cases (j == id)) [
  | inl same ↦ rw (same) (All-erase_others P id m h.1)
  | inr other ↦ rw (other) ((h.0, other), All-erase_others P id m h.1)
]

has_number-filter :
    (n id : ℕ) (l : List ℕ)
    → (n == id) ≡ false
    → has_number n l ≡ true
    → has_number n (filter (λ k. not (k == id)) l) ≡ true
unfolding filter
has_number-filter n id [] other h = h
has_number-filter n id (k ∷ l) other h = ground (arith, has_number-filter n id l other)

-- Whether the mutex is held does not matter.
IsTable-locked : (b : Bool) (s : TcpServer) → IsTable s → IsTable (record s { locked = b })
IsTable-locked b s h = record { entries = h.entries; distinct = h.distinct; next_pos = h.next_pos }

pub with_lock-IsTable :
    {A : Type 0} (body : TcpServer → Option A × TcpServer) (s : TcpServer)
    → (IsTable (record s { locked = true }) → IsTable (body (record s { locked = true })).1)
    → IsTable s
    → IsTable (with_lock body s).1
unfolding with_lock release
with_lock-IsTable {A} body s keeps h =
    if_keeps (λ (o : Option A × TcpServer). IsTable o.1) s.locked _ _ h
      (released (body (record s { locked = true })) (keeps (IsTable-locked true s h)))
  where
    released : (o : Option A × TcpServer) → IsTable o.1 → IsTable (release o).1
    released (none, t) k = k
    released (some a, t) k = IsTable-locked false t k

pub close_handler-IsTable : (id : ℕ) (s : TcpServer) → IsTable s → IsTable (close_handler id s).1
unfolding close_handler take_out
close_handler-IsTable id s = with_lock-IsTable (take_out id) s λ h. record {
  entries =
      All-weaken _ _ (erase id s.connections)
        (λ e k. record {
          own_id = k.0.own_id;
          counted = k.0.counted;
          given = k.0.given;
          awaited = λ shut. has_number-filter e.0 id s.closing k.1 (k.0.awaited shut);
        })
        (All-erase_others _ id s.connections h.entries);
  distinct = IsDistinct-erase id s.connections h.distinct;
  next_pos = h.next_pos;
}

-- More connections that close
pub IsEntry-more :
    (next n : ℕ) (closing : List ℕ) (b : Bool) (e : ℕ × Connection)
    → IsEntry next closing e
    → IsEntry next (if b then n ∷ closing else closing) e
IsEntry-more next n closing b e k = record {
  own_id = k.own_id;
  counted = k.counted;
  given = k.given;
  awaited = λ shut. ground (arith, k.awaited shut);
}

pub put_back-IsTable :
    (id : ℕ) (c c' : Connection) (s : TcpServer)
    → IsTable s
    → IsEntry s.next_conn_id s.closing (id, c)
    → c'.id ≡ c.id
    → IsTable (put_back id c c' s)
unfolding put_back just_closed
put_back-IsTable id c c' s h entry same = record {
  entries =
      All-insert_entry _ id c' s.connections
        (record {
          own_id = same ∙ entry.own_id;
          counted = entry.counted;
          given = entry.given;
          awaited = λ shut. ground (arith, entry.awaited);
        })
        (All-weaken _ _ s.connections (IsEntry-more s.next_conn_id id s.closing (just_closed c c'))
          h.entries);
  distinct = IsDistinct-insert id c' s.connections h.distinct;
  next_pos = h.next_pos;
}

pub call_method-IsTable :
    {A : Type 0} (absent : A) (id : ℕ) (method : Connection → A × Connection) (s : TcpServer)
    → ((c : Connection) → (method c).1.id ≡ c.id)
    → IsTable s
    → IsTable (call_method absent id method s).1
unfolding call_method
call_method-IsTable absent id method s same h = elim (Option-cases (lookup id s.connections)) [
  | inl missing ↦ rw (missing, call_method) h
  | inr (c, found) ↦
      rw (found, call_method)
        (put_back-IsTable id c (method c).1 s h
          (All-lookup_entry _ id c s.connections h.entries found) (same c))
]
