-- ===== src/Topics/TopicManager.antt =====
-- src/mq/topic_manager.cpp: who is subscribed to which topic. A method returns its result and the new
-- manager.
pub mod Departures
pub mod Connections
pub mod RoundRobin
pub mod Gone
use proto_msg_queue.Prelude.{
  ℕ, ◌+◌, ◌%◌, ◌^◌, Bool, true, false, not, ◌||◌, Option, none, some, List, [], ◌∷◌, ◌++◌, map,
  length, get_or, ltb, ◌==◌, if◌then◌else◌, filter, is_some, is_empty,
}
use proto_msg_queue.Map.{Text, text_beq, text_eq, lookup, insert, erase}
use proto_msg_queue.Topics.Topic.{
  SubscriberInfo, TopicInfo, TopicConfig, ConsumerGroupMember, ConsumerGroup, Groups,
}

-- `class TopicManager`
pub record TopicManager : Type 0 where
  pub topics : List (Text × TopicInfo)
  pub subscribers : List (Text × List SubscriberInfo)
  pub consumer_groups : List (Text × Groups)
  pub topic_configs : List (Text × TopicConfig)

-- `RegisterTopic`
unfoldable pub register_topic : TopicInfo → TopicManager → Bool × TopicManager
register_topic topic t =
    if is_some (lookup topic.name t.topics)
    then (false, t)
    else (true, record t { topics = insert topic.name topic t.topics })

-- `UnregisterTopic`, which keeps the topic's configuration
unfoldable pub unregister_topic : Text → TopicManager → Bool × TopicManager
unregister_topic name t = (
  true,
  record t {
    topics = erase name t.topics;
    subscribers = erase name t.subscribers;
    consumer_groups = erase name t.consumer_groups;
  },
)

-- `GetTopic`
unfoldable pub get_topic : Text → TopicManager → Option TopicInfo
get_topic name t = lookup name t.topics

-- `GetAllTopics`
unfoldable pub get_all_topics : TopicManager → List TopicInfo
get_all_topics t = map (λ e. e.1) t.topics

-- `std::find_if` over the subscribers, and over the members.
unfoldable pub has_subscriber : Text → List SubscriberInfo → Bool
has_subscriber id [] = false
has_subscriber id (s ∷ subs) = text_beq s.id id || has_subscriber id subs

unfoldable pub has_member : Text → List ConsumerGroupMember → Bool
has_member id [] = false
has_member id (m ∷ members) = text_beq m.subscriber_id id || has_member id members

-- The list or map that `operator[]` gives: an empty one where there is none.
unfoldable pub list_of {ℓ} : {A : Type ℓ} → Option (List A) → List A
list_of none = []
list_of (some l) = l

-- The topic that `Subscribe` makes if there is none.
unfoldable pub ensure_topic : Text → TopicManager → TopicManager
ensure_topic name t = if is_some (lookup name t.topics) then t else (record t {
  topics = insert name (record { name = name; create_time = 0; message_count = 0 }) t.topics;
})

-- The group after `Subscribe`, for a member that it does not have; a new one where there is none.
unfoldable pub join : Text → Text → SubscriberInfo → Option ConsumerGroup → ConsumerGroup
join name group_id s none = record {
  group_id = group_id;
  topic_name = name;
  members = record { subscriber_id = s.id; conn_id = s.conn_id } ∷ [];
  round_robin_index = 0;
}
join name group_id s (some g) = record g {
  members = g.members ++ (record { subscriber_id = s.id; conn_id = s.conn_id }) ∷ [];
}

unfoldable pub is_member : Text → Option ConsumerGroup → Bool
is_member id none = false
is_member id (some g) = has_member id g.members

-- `Subscribe`; an empty group name stands for a broadcast subscription.
unfoldable pub subscribe : Text → SubscriberInfo → Text → TopicManager → Bool × TopicManager
subscribe name s group_id t0 =
    let t = ensure_topic name t0 in
    let subs = list_of (lookup name t.subscribers) in
    let groups = list_of (lookup name t.consumer_groups) in
    if is_empty group_id
    then (if has_subscriber s.id subs
        then (false, record t { subscribers = insert name subs t.subscribers })
        else (true, record t { subscribers = insert name (subs ++ s ∷ []) t.subscribers }))
    else if is_member s.id (lookup group_id groups)
    then (false, record t { consumer_groups = insert name groups t.consumer_groups })
    else (
      true,
      record t {
        consumer_groups =
            insert name (insert group_id (join name group_id s (lookup group_id groups)) groups)
              t.consumer_groups;
      },
    )

-- A group is kept if a member is left.
unfoldable pub keep_group : Text → ConsumerGroup → Groups → Groups
keep_group group_id g groups =
    if is_empty g.members then erase group_id groups else insert group_id g groups

-- The part of `Unsubscribe` on one group.
unfoldable pub leave :
    Text → Text → Text → Groups → Option ConsumerGroup → TopicManager → Bool × TopicManager
leave name id group_id groups none t = (false, t)
leave name id group_id groups (some g) t =
    let left = filter (λ m. not (text_beq m.subscriber_id id)) g.members in
    if has_member id g.members
    then (
      true,
      record t {
        consumer_groups =
            insert name (keep_group group_id (record g { members = left }) groups)
              t.consumer_groups;
      },
    )
    else (false, t)

-- `Unsubscribe`
unfoldable pub unsubscribe : Text → Text → Text → TopicManager → Bool × TopicManager
unsubscribe name id group_id t =
    if is_empty group_id
    then elim (lookup name t.subscribers) [
      | none ↦ (false, t)
      | some subs ↦
          if has_subscriber id subs
          then (
            true,
            record t {
              subscribers = insert name (filter (λ s. not (text_beq s.id id)) subs) t.subscribers;
            },
          )
          else (false, t)
    ]
    else elim (lookup name t.consumer_groups) [
      | none ↦ (false, t)
      | some groups ↦ leave name id group_id groups (lookup group_id groups) t
    ]

-- `GetSubscribers`
unfoldable pub get_subscribers : Text → TopicManager → List SubscriberInfo
get_subscribers name t = list_of (lookup name t.subscribers)

-- `GetConsumerGroups`
unfoldable pub get_consumer_groups : Text → TopicManager → List ConsumerGroup
get_consumer_groups name t = map (λ e. e.1) (list_of (lookup name t.consumer_groups))

-- `GetConsumerGroup`
unfoldable pub get_consumer_group : Text → Text → TopicManager → Option ConsumerGroup
get_consumer_group name group_id t = lookup group_id (list_of (lookup name t.consumer_groups))

-- The turn that `SelectNextMember` takes in a group that has members.
unfoldable pub next_member : ConsumerGroup → Text × ConsumerGroup
next_member g =
    let idx = g.round_robin_index % length g.members in
    (
      (get_or g.members idx (record { subscriber_id = []; conn_id = 0 })).subscriber_id,
      record g { round_robin_index = (g.round_robin_index + 1) % 2 ^ 64 % length g.members },
    )

-- `SelectNextMember`
unfoldable pub select_next_member : Text → Text → TopicManager → Text × TopicManager
select_next_member name group_id t =
    let groups = list_of (lookup name t.consumer_groups) in
    elim (lookup group_id groups) [
      | none ↦ ([], t)
      | some g ↦
          if is_empty g.members
          then ([], t)
          else let (id, g') = next_member g in
            (
              id,
              record t {
                consumer_groups = insert name (insert group_id g' groups) t.consumer_groups;
              },
            )
    ]

-- `HasTopic`
unfoldable pub is_registered : Text → TopicManager → Bool
is_registered name t = is_some (lookup name t.topics)

-- `SetTopicConfig`, `GetTopicConfig` and `HasTopicConfig`
unfoldable pub set_topic_config : Text → TopicConfig → TopicManager → TopicManager
set_topic_config name config t = record t { topic_configs = insert name config t.topic_configs }

unfoldable pub config_or_default : Option TopicConfig → TopicConfig
config_or_default none = record {
  ring_buffer_size = 0;
  default_ttl_ms = 0;
  compression_enabled = false;
}
config_or_default (some config) = config

unfoldable pub get_topic_config : Text → TopicManager → TopicConfig
get_topic_config name t = config_or_default (lookup name t.topic_configs)

unfoldable pub has_topic_config : Text → TopicManager → Bool
has_topic_config name t = is_some (lookup name t.topic_configs)
