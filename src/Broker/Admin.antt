-- ===== src/Broker/Admin.antt =====
-- `HandleAdmin` of src/mq/broker.cpp, and the JSON that it writes.
use proto_msg_queue.Prelude.{
  ℕ, Bool, true, false, none, some, List, [], ◌∷◌, ◌++◌, length, is_empty, if◌then◌else◌,
}
use proto_msg_queue.Map.{Text, codes}
use proto_msg_queue.Protocol.Frame.{Frame}
use proto_msg_queue.Common.Decimal.{to_string}
use proto_msg_queue.Storage.Store.{create_topic, delete_topic}
use proto_msg_queue.Topics.Topic.{TopicInfo}
use proto_msg_queue.Topics.TopicManager.{
  get_all_topics, get_subscribers, get_consumer_groups, is_registered, unregister_topic,
}
use proto_msg_queue.Broker.{Broker, Peer, Outcome}
use proto_msg_queue.Broker.Messages.{Wire, AdminCommandType, AdminRequest}
use proto_msg_queue.Broker.Replies.{admin_response, answer}

-- The names with `","` between them.
unfoldable pub join_names : List TopicInfo → Text
join_names [] = []
join_names (t ∷ []) = t.name
join_names (t ∷ t' ∷ ts) = t.name ++ codes "\",\"" ++ join_names (t' ∷ ts)

unfoldable pub topics_json : List TopicInfo → Text
topics_json topics =
    codes "{\"topics\":" ++ (codes "[\"" ++ join_names topics ++ codes "\"]") ++ codes "}"

unfoldable pub topic_json : Text → Bool → ℕ → ℕ → Text
topic_json topic exists subscribers groups =
    codes "{\"topic\":\""
    ++ topic
    ++ codes "\""
    ++ codes ",\"exists\":"
    ++ (if exists then codes "true" else codes "false")
    ++ codes ",\"subscribers\":"
    ++ to_string subscribers
    ++ codes ",\"consumer_groups\":"
    ++ to_string groups
    ++ codes "}"

unfoldable pub stats_json : ℕ → ℕ → Text
stats_json topics producers =
    codes "{\"topics\":"
    ++ to_string topics
    ++ codes ",\"dedup_producers\":"
    ++ to_string producers
    ++ codes "}"

module _ {W : Type 0} (wire : Wire) where
  -- `SendAdminResponse(conn, true, "", json)`
  unfoldable pub result : Text → Peer W → Broker W → Outcome W
  result json conn b = answer (admin_response wire true [] json) conn b

  -- The commands that want a topic
  unfoldable pub on_topic : AdminRequest → Outcome W → Peer W → Broker W → Outcome W
  on_topic req done conn b =
      if is_empty req.topic
      then answer (admin_response wire false (codes "Topic name required") []) conn b
      else done

  unfoldable pub run_command : AdminCommandType → AdminRequest → Peer W → Broker W → Outcome W
  run_command AdminCommandType.list_topics req conn b =
      result (topics_json (get_all_topics b.topic_manager)) conn b
  run_command AdminCommandType.get_topic_info req conn b =
      on_topic req
        (result
          (topic_json req.topic (is_registered req.topic b.topic_manager)
            (length (get_subscribers req.topic b.topic_manager))
            (length (get_consumer_groups req.topic b.topic_manager)))
          conn b)
        conn b
  run_command AdminCommandType.delete_topic req conn b =
      on_topic req
        (result (codes "{\"deleted\":true}") conn (record b {
          store = (delete_topic req.topic b.store).1;
          topic_manager = (unregister_topic req.topic b.topic_manager).1;
        }))
        conn b
  run_command AdminCommandType.get_stats req conn b =
      result
        (stats_json (length (get_all_topics b.topic_manager)) (length b.dedup_window.producers))
        conn b
  run_command AdminCommandType.get_connections req conn b =
      result (codes "{\"connections\":0}") conn b
  run_command AdminCommandType.cleanup_topic req conn b =
      on_topic req
        (result (codes "{\"cleaned\":true}") conn
          (record b { store = (create_topic req.topic (delete_topic req.topic b.store).1).1 }))
        conn b
  run_command _ req conn b =
      answer (admin_response wire false (codes "Unknown admin command") []) conn b

  -- `HandleAdmin`
  unfoldable pub handle_admin : Frame → Peer W → Broker W → Outcome W
  handle_admin f conn b = elim (wire.parse_admin f.payload) [
    | none ↦ answer (admin_response wire false (codes "Failed to parse admin request") []) conn b
    | some req ↦ run_command req.command req conn b
  ]
