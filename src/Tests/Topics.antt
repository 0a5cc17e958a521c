-- ===== src/Tests/Topics.antt =====
-- A group of two, one of which leaves with its connection.
use proto_msg_queue.Prelude.{◌≡◌, arith, [], ◌∷◌}
use proto_msg_queue.Map.{Text}
use proto_msg_queue.Topics.Topic.{ConsumerGroupMember, ConsumerGroup}
use proto_msg_queue.Topics.TopicManager.{TopicManager, next_member}
use proto_msg_queue.Topics.TopicManager.Departures.{unsubscribe_by_conn_id}
use proto_msg_queue.Topics.TopicManager.Connections.{
  IsFreeSubs, IsFreeTopics, unsubscribe_by_conn_id_lem,
}
use proto_msg_queue.Topics.TopicManager.RoundRobin.{turns, next_member-turns}

abbrev topic : Text
topic = 116 ∷ []

abbrev ann : ConsumerGroupMember
ann = record { subscriber_id = 97 ∷ []; conn_id = 1 }

abbrev bob : ConsumerGroupMember
bob = record { subscriber_id = 98 ∷ []; conn_id = 2 }

abbrev pair : ConsumerGroup
pair = record {
  group_id = 103 ∷ [];
  topic_name = topic;
  members = ann ∷ bob ∷ [];
  round_robin_index = 1;
}

abbrev manager : TopicManager
manager = record {
  topics = [];
  subscribers = (topic, record { id = 97 ∷ []; conn_id = 1 } ∷ []) ∷ [];
  consumer_groups = (topic, (103 ∷ [], pair) ∷ []) ∷ [];
  topic_configs = [];
}

unsubscribe_by_conn_id_lem_example :
    IsFreeSubs 1 (unsubscribe_by_conn_id 1 manager).1.subscribers
    × IsFreeTopics 1 (unsubscribe_by_conn_id 1 manager).1.consumer_groups
unsubscribe_by_conn_id_lem_example = unsubscribe_by_conn_id_lem 1 manager

next_member-turns_example : (next_member (turns 3 pair)).0 ≡ 97 ∷ []
next_member-turns_example = next_member-turns 3 pair (omega arith) (omega arith) (omega arith)
