-- ===== src/Broker/Departed/Idle.antt =====
-- The heartbeat of src/network/tcp_server.cpp and the idle handler that `Start` of src/mq/broker.cpp
-- gives it.
use proto_msg_queue.Prelude.{
  if_keeps, ℕ, ◌≡◌, not, false, none, some, List, [], ◌∷◌, All, ◌==◌, filter, is_empty,
}
use proto_msg_queue.Map.{Text, number_eq, lookup}
use proto_msg_queue.Network.TcpServer.{TcpServer}
use proto_msg_queue.Network.TcpServer.Idle.{heartbeat_round}
use proto_msg_queue.Network.TcpServer.Heartbeat.{reported_gone}
use proto_msg_queue.Network.TcpServer.Table.{IsTable}
use proto_msg_queue.Topics.Topic.{SubscriberInfo, Groups}
use proto_msg_queue.Topics.TopicManager.{TopicManager}
use proto_msg_queue.Topics.TopicManager.Connections.{IsOther}
use proto_msg_queue.Topics.TopicManager.Departures.{
  drop_subscribers, drop_members, drop_groups, unsubscribe_by_conn_id,
}
use proto_msg_queue.Topics.TopicManager.Gone.{
  NoneOf, NoneIn, IsGone, All-filter, unsubscribe_by_conn_id-IsGone,
}
use proto_msg_queue.Broker.{Broker}
use proto_msg_queue.Broker.Consume.{on_connection_closed}

module _ (c d : ℕ) where
  drop_subscribers-NoneOf :
      (subs : List (Text × List SubscriberInfo))
      → All (λ e. NoneOf c e.1) subs
      → All (λ e. NoneOf c e.1) (drop_subscribers d subs).1
  unfolding drop_subscribers
  drop_subscribers-NoneOf [] h = tt
  drop_subscribers-NoneOf ((name, subs) ∷ rest) h =
      let left = filter (λ s. not (s.conn_id == d)) subs in
      let kept = drop_subscribers-NoneOf rest h.1 in
      if_keeps (All (λ e. NoneOf c e.1)) (is_empty left) _ _ kept
        (All-filter (λ s. IsOther c s.conn_id) (λ s. not (s.conn_id == d)) subs h.0, kept)

  drop_members-NoneIn : (groups : Groups) → NoneIn c groups → NoneIn c (drop_members d groups).1
  unfolding drop_members
  drop_members-NoneIn [] h = tt
  drop_members-NoneIn ((name, g) ∷ rest) h =
      let left = filter (λ m. not (m.conn_id == d)) g.members in
      let kept = drop_members-NoneIn rest h.1 in
      if_keeps (NoneIn c) (is_empty left) _ _ kept
        (All-filter (λ m. IsOther c m.conn_id) (λ m. not (m.conn_id == d)) g.members h.0, kept)

  drop_groups-NoneIn :
      (topics : List (Text × Groups))
      → All (λ e. NoneIn c e.1) topics
      → All (λ e. NoneIn c e.1) (drop_groups d topics).1
  unfolding drop_groups
  drop_groups-NoneIn [] h = tt
  drop_groups-NoneIn ((name, groups) ∷ rest) h =
      let kept = drop_groups-NoneIn rest h.1 in
      if_keeps (All (λ e. NoneIn c e.1)) (is_empty (drop_members d groups).1) _ _ kept
        (drop_members-NoneIn groups h.0, kept)

  other_departure-IsGone : (t : TopicManager) → IsGone c t → IsGone c (unsubscribe_by_conn_id d t).1
  unfolding unsubscribe_by_conn_id
  other_departure-IsGone t h = record {
    no_subscriber = drop_subscribers-NoneOf t.subscribers h.no_subscriber;
    no_member = drop_groups-NoneIn t.consumer_groups h.no_member;
  }

-- The idle handler is called for each connection in turn.
unfoldable pub report_idle : {W : Type 0} → List ℕ → Broker W → Broker W
report_idle [] b = b
report_idle (id ∷ ids) b = report_idle ids (on_connection_closed id b)

All-both {κ μ} :
    {A : Type 0} (P : A → Type κ) (Q : A → Type μ) (l : List A)
    → All P l
    → All Q l
    → All (λ n. P n × Q n) l
All-both P Q [] h k = tt
All-both P Q (n ∷ l) h k = ((h.0, k.0), All-both P Q l h.1 k.1)

module _ {W : Type 0} where
  report_idle-keeps :
      (c : ℕ) (ids : List ℕ) (b : Broker W)
      → IsGone c b.topic_manager
      → IsGone c (report_idle ids b).topic_manager
  unfolding report_idle on_connection_closed
  report_idle-keeps c [] b h = h
  report_idle-keeps c (id ∷ ids) b h =
      report_idle-keeps c ids _ (other_departure-IsGone c id b.topic_manager h)

  report_idle-IsGone :
      (ids : List ℕ) (b : Broker W) → All (λ c. IsGone c (report_idle ids b).topic_manager) ids
  unfolding report_idle on_connection_closed
  report_idle-IsGone [] b = tt
  report_idle-IsGone (id ∷ ids) b = (
    report_idle-keeps id ids _ (unsubscribe_by_conn_id-IsGone id b.topic_manager),
    report_idle-IsGone ids _,
  )

  -- In a table as every reachable server has it, while nobody holds the mutex: a round of the heartbeat
  -- that no other thread interrupts leaves nothing of the connections that it reports. None of them is
  -- in the server's table, and after the idle handler was called for each in turn, the broker has no
  -- subscription and no membership of any of them.
  pub heartbeat_forgets :
      (now : ℕ) (s : TcpServer) (b : Broker W)
      → IsTable s
      → s.locked ≡ false
      → (ids : List ℕ) × ((heartbeat_round now s).0 ≡ some ids)
        × All
            (λ n.
              (lookup n (heartbeat_round now s).1.connections ≡ none)
              × IsGone n (report_idle ids b).topic_manager)
            ids
  heartbeat_forgets now s b table free =
      let (ids, told, gone) = reported_gone now s table free in
      (ids, told, All-both _ _ _ gone (report_idle-IsGone ids b))
