-- ===== src/Topics/TopicManager/Departures.antt =====
-- `UnsubscribeByConnId` of src/mq/topic_manager.cpp: a connection's subscriptions are dropped.
use proto_msg_queue.Prelude.{
  ℕ, Bool, false, not, ◌||◌, List, [], ◌∷◌, length, ltb, ◌==◌, if◌then◌else◌, filter, is_empty,
}
use proto_msg_queue.Map.{Text}
use proto_msg_queue.Topics.Topic.{SubscriberInfo, Groups}
use proto_msg_queue.Topics.TopicManager.{TopicManager}

-- The loop of `UnsubscribeByConnId` over the broadcast subscribers: whether one was removed, and the
-- lists that are not empty.
unfoldable pub drop_subscribers :
    ℕ → List (Text × List SubscriberInfo) → Bool × List (Text × List SubscriberInfo)
drop_subscribers conn_id [] = (false, [])
drop_subscribers conn_id ((name, subs) ∷ rest) =
    let left = filter (λ s. not (s.conn_id == conn_id)) subs in
    let (removed, kept) = drop_subscribers conn_id rest in
    (
      ltb (length left) (length subs) || removed,
      if is_empty left then kept else (name, left) ∷ kept,
    )

-- Its loop over the groups of one topic, and over the topics.
unfoldable pub drop_members : ℕ → Groups → Bool × Groups
drop_members conn_id [] = (false, [])
drop_members conn_id ((group_id, g) ∷ rest) =
    let left = filter (λ m. not (m.conn_id == conn_id)) g.members in
    let (removed, kept) = drop_members conn_id rest in
    (
      ltb (length left) (length g.members) || removed,
      if is_empty left then kept else (group_id, record g { members = left }) ∷ kept,
    )

unfoldable pub drop_groups : ℕ → List (Text × Groups) → Bool × List (Text × Groups)
drop_groups conn_id [] = (false, [])
drop_groups conn_id ((name, groups) ∷ rest) =
    let (removed, left) = drop_members conn_id groups in
    let (removed', kept) = drop_groups conn_id rest in
    (removed || removed', if is_empty left then kept else (name, left) ∷ kept)

-- `UnsubscribeByConnId`
unfoldable pub unsubscribe_by_conn_id : ℕ → TopicManager → Bool × TopicManager
unsubscribe_by_conn_id conn_id t =
    let (a, subscribers) = drop_subscribers conn_id t.subscribers in
    let (b, groups) = drop_groups conn_id t.consumer_groups in
    (a || b, record t { subscribers = subscribers; consumer_groups = groups })
