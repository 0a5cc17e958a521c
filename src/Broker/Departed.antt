-- ===== src/Broker/Departed.antt =====
-- Nothing goes to a connection of which `OnConnectionClosed` of src/mq/broker.cpp was told.
pub mod Handlers
pub mod Silence
pub mod Idle
use proto_msg_queue.Prelude.{
  if_keeps, option_keeps, subst, sym, is_empty, ℕ, suc, ◌≡◌, ◌≢◌, refl, Bool, true, false, ◌&&◌,
  not, ==_iff, Option, none, some, List, [], ◌∷◌, ◌++◌, length, All, All-append, map, ltb, ◌==◌,
  if◌then◌else◌, Bool-cases, Option-cases, inl, inr, arith,
}
use proto_msg_queue.Map.{Text, text_beq, text_eq, lookup}
use proto_msg_queue.Protocol.Frame.{Frame}
use proto_msg_queue.Storage.Message.{StoredMessage}
use proto_msg_queue.Topics.Topic.{SubscriberInfo, ConsumerGroupMember, ConsumerGroup, Groups}
use proto_msg_queue.Topics.TopicManager.{
  TopicManager, list_of, get_subscribers, get_consumer_groups, select_next_member,
}
use proto_msg_queue.Topics.TopicManager.Connections.{IsOther}
use proto_msg_queue.Topics.TopicManager.Gone.{
  NoneOf, NoMember, NoneIn, IsGone, subscribers_gone, groups_gone, select_next_member-IsGone,
}
use proto_msg_queue.Broker.{Broker, Peer, Send, to_conn, to_id, Outcome}
use proto_msg_queue.Broker.BatchPublish.{push_topics, topic_frame}
use proto_msg_queue.Broker.Messages.{Wire}
use proto_msg_queue.Broker.Replies.{answer}
use proto_msg_queue.Broker.Targets.{
  member_conn, group_target, push_topic, push_groups, push_subscribers, send_unless_zero,
}

-- `SendTo` is not called with the connection.
abbrev pub NotTo : ℕ → Send → Type 0
NotTo c (to_conn f) = Unit
NotTo c (to_id n f) = IsOther c n

-- What a handler sends, and what it leaves, have nothing for the connection.
pub record IsSilent {W : Type 0} (c : ℕ) (o : Outcome W) : Type 0 where
  pub not_sent : All (NotTo c) o.sends
  pub gone : IsGone c o.broker.topic_manager

pub answer-IsSilent :
    {W : Type 0} (c : ℕ) (f : Frame) (conn : Peer W) (b : Broker W)
    → IsGone c b.topic_manager
    → IsSilent c (answer f conn b)
unfolding answer
answer-IsSilent c f conn b h = record { not_sent = (tt, tt); gone = h }

module _ (c : ℕ) (real : IsOther c 0) where
  member_conn-IsOther :
      (id : Text) (ms : List ConsumerGroupMember)
      → All (λ m. IsOther c m.conn_id) ms
      → IsOther c (member_conn id ms)
  unfolding member_conn
  member_conn-IsOther id [] h = real
  member_conn-IsOther id (m ∷ ms) h =
      if_keeps (IsOther c) (text_beq m.subscriber_id id) _ _ h.0 (member_conn-IsOther id ms h.1)

  group_target-IsOther :
      (topic : Text) (g : ConsumerGroup) (t : TopicManager)
      → NoMember c g
      → IsOther c (group_target topic g t).0
  unfolding group_target
  group_target-IsOther topic g t h =
      if_keeps (λ (o : ℕ × TopicManager). IsOther c o.0) (is_empty g.members) _ _ real
        (if_keeps (IsOther c) (is_empty (select_next_member topic g.group_id t).0) _ _ real
          (member_conn-IsOther _ g.members h))

  group_target-IsGone :
      (topic : Text) (g : ConsumerGroup) (t : TopicManager)
      → IsGone c t
      → IsGone c (group_target topic g t).1
  unfolding group_target
  group_target-IsGone topic g t h =
      if_keeps (λ (o : ℕ × TopicManager). IsGone c o.1) (is_empty g.members) _ _ h
        (select_next_member-IsGone c topic g.group_id t h)

  push_groups-NotTo :
      (frame : ℕ → Frame) (topic : Text) (i : ℕ) (groups : List ConsumerGroup) (t : TopicManager)
      → All (NoMember c) groups
      → IsGone c t
      → All (NotTo c) (push_groups frame topic i groups t).0
        × IsGone c (push_groups frame topic i groups t).1
  unfolding push_groups send_unless_zero
  push_groups-NotTo frame topic i [] t h gone = (tt, gone)
  push_groups-NotTo frame topic i (g ∷ groups) t h gone =
      let target = (group_target topic g t).0 in
      let rest =
        push_groups-NotTo frame topic (suc i) groups (group_target topic g t).1 h.1
          (group_target-IsGone topic g t gone) in
      (
        All-append (NotTo c) (send_unless_zero target (frame i)) _
            (if_keeps (All (NotTo c)) (target == 0) _ _ tt (group_target-IsOther topic g t h.0, tt))
            rest.0,
        rest.1,
      )

  push_subscribers-NotTo :
      (f : Frame) (subs : List SubscriberInfo)
      → NoneOf c subs
      → All (NotTo c) (push_subscribers f subs)
  unfolding push_subscribers
  push_subscribers-NotTo f [] h = tt
  push_subscribers-NotTo f (s ∷ subs) h = (h.0, push_subscribers-NotTo f subs h.1)

  groups-NoMember : (groups : Groups) → NoneIn c groups → All (NoMember c) (map (λ e. e.1) groups)
  groups-NoMember [] h = tt
  groups-NoMember (e ∷ groups) h = (h.0, groups-NoMember groups h.1)

  pub push_topic-NotTo :
      (f : Frame) (frame : ℕ → Frame) (topic : Text) (t : TopicManager)
      → IsGone c t
      → All (NotTo c) (push_topic f frame topic t).0 × IsGone c (push_topic f frame topic t).1
  unfolding push_topic get_subscribers get_consumer_groups
  push_topic-NotTo f frame topic t gone =
      let groups =
        push_groups-NotTo frame topic 0 (get_consumer_groups topic t) t
          (groups-NoMember _ (groups_gone c topic t gone)) gone in
      (
        All-append (NotTo c) (push_subscribers f (get_subscribers topic t)) _
            (push_subscribers-NotTo f _ (subscribers_gone c topic t gone)) groups.0,
        groups.1,
      )

  pub push_topics-NotTo :
      (wire : Wire) (batch : Bool) (topics : List (Text × List StoredMessage)) (t : TopicManager)
      → IsGone c t
      → All (NotTo c) (push_topics wire batch topics t).0
        × IsGone c (push_topics wire batch topics t).1
  unfolding push_topics
  push_topics-NotTo wire batch [] t gone = (tt, gone)
  push_topics-NotTo wire batch ((topic, ms) ∷ rest) t gone =
      let frame = topic_frame wire batch topic ms in
      let first = push_topic-NotTo frame (λ _. frame) topic t gone in
      let more = push_topics-NotTo wire batch rest _ first.1 in
      (All-append (NotTo c) (push_topic frame (λ _. frame) topic t).0 _ first.0 more.0, more.1)
