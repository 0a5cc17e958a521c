-- ===== src/Broker/Deletion.antt =====
-- The commands of `HandleAdmin` in src/mq/broker.cpp that remove messages.
use proto_msg_queue.Prelude.{
  option_keeps, map, ◌≡◌, refl, ap, ◌∙◌, Bool, false, none, some, [], is_empty, is_some,
  Option-cases, inl, inr,
}
use proto_msg_queue.Map.{
  Text, text_beq, text_eq, lookup, lookup-erase_other, lookup-erase_self, lookup-insert_other,
  lookup-insert_self,
}
use proto_msg_queue.Storage.Topic.{make_topic}
use proto_msg_queue.Storage.Store.{MemoryMessageStore, create_topic, delete_topic}
use proto_msg_queue.Topics.TopicManager.{
  unregister_topic, is_registered, get_subscribers, get_consumer_groups, list_of,
}
use proto_msg_queue.Broker.{Broker, Peer}
use proto_msg_queue.Broker.Admin.{run_command, on_topic, result}
use proto_msg_queue.Broker.Messages.{Wire, AdminCommandType, AdminRequest}
use proto_msg_queue.Broker.Replies.{answer}

module _ (topic : Text) (s : MemoryMessageStore) where
  lookup-delete_topic_self : lookup topic (delete_topic topic s).1.topics ≡ none
  unfolding delete_topic
  lookup-delete_topic_self = elim (Option-cases (lookup topic s.topics)) [
    | inl e ↦ rw (delete_topic, e) e
    | inr (t, e) ↦ rw (delete_topic, e) (lookup-erase_self topic s.topics)
  ]

  module _ (other : Text) (apart : text_beq topic other ≡ false) where
    lookup-delete_topic_other : lookup other (delete_topic topic s).1.topics ≡ lookup other s.topics
    unfolding delete_topic
    lookup-delete_topic_other = elim (Option-cases (lookup topic s.topics)) [
      | inl e ↦ rw (delete_topic, e) refl
      | inr (t, e) ↦ rw (delete_topic, e) (lookup-erase_other topic other s.topics apart)
    ]

    lookup-create_topic_other : lookup other (create_topic topic s).1.topics ≡ lookup other s.topics
    unfolding create_topic
    lookup-create_topic_other = elim (Option-cases (lookup topic s.topics)) [
      | inl e ↦ rw (create_topic, e) (lookup-insert_other topic other _ s.topics apart)
      | inr (t, e) ↦ rw (create_topic, e) refl
    ]

  lookup-create_topic_self :
      lookup topic s.topics ≡ none
      → lookup topic (create_topic topic s).1.topics ≡ some (make_topic s.default_buffer_size topic)
  unfolding create_topic
  lookup-create_topic_self e = rw (create_topic, e) (lookup-insert_self topic _ s.topics)

  delete_topic-size : (delete_topic topic s).1.default_buffer_size ≡ s.default_buffer_size
  unfolding delete_topic
  delete_topic-size =
      option_keeps
        (λ (o : Bool × MemoryMessageStore). o.1.default_buffer_size ≡ s.default_buffer_size)
        (lookup topic s.topics) _ _ refl λ t e. refl

module _ {W : Type 0} (wire : Wire) (req : AdminRequest) (conn : Peer W) (b : Broker W)
    (named : is_empty req.topic ≡ false) where
  -- After ADMIN_DELETE_TOPIC with a topic's name the store has no such topic, nobody is subscribed to
  -- it, no consumer group reads it and it is not registered; every other topic has the messages and
  -- the subscribers that it had.
  pub delete_topic_lem :
      (other : Text)
      → text_beq req.topic other ≡ false
      → let b' = (run_command wire AdminCommandType.delete_topic req conn b).broker in
        (lookup req.topic b'.store.topics ≡ none)
        × (is_registered req.topic b'.topic_manager ≡ false)
        × (get_subscribers req.topic b'.topic_manager ≡ [])
        × (get_consumer_groups req.topic b'.topic_manager ≡ [])
        × (lookup other b'.store.topics ≡ lookup other b.store.topics)
        × (get_subscribers other b'.topic_manager ≡ get_subscribers other b.topic_manager)
        × (get_consumer_groups other b'.topic_manager ≡ get_consumer_groups other b.topic_manager)
  unfolding run_command on_topic result answer unregister_topic is_registered get_subscribers
      get_consumer_groups list_of
  delete_topic_lem other apart =
      let t = b.topic_manager in
      rw (on_topic, named)
        (
          lookup-delete_topic_self req.topic b.store,
          ap is_some (lookup-erase_self req.topic t.topics),
          ap list_of (lookup-erase_self req.topic t.subscribers),
          ap (λ gs. map (λ e. e.1) (list_of gs)) (lookup-erase_self req.topic t.consumer_groups),
          lookup-delete_topic_other req.topic b.store other apart,
          ap list_of (lookup-erase_other req.topic other t.subscribers apart),
          ap (λ gs. map (λ e. e.1) (list_of gs))
              (lookup-erase_other req.topic other t.consumer_groups apart),
        )

  -- After ADMIN_CLEANUP_TOPIC with a topic's name the store has that topic as it makes a new one, with
  -- no message and the message numbers from 1 again; the other topics and all subscriptions are as
  -- before.
  pub cleanup_topic_lem :
      (other : Text)
      → text_beq req.topic other ≡ false
      → let b' = (run_command wire AdminCommandType.cleanup_topic req conn b).broker in
        (lookup req.topic b'.store.topics ≡ some (make_topic b.store.default_buffer_size req.topic))
        × (lookup other b'.store.topics ≡ lookup other b.store.topics)
        × (b'.topic_manager ≡ b.topic_manager)
  unfolding run_command on_topic result answer
  cleanup_topic_lem other apart =
      let s' = (delete_topic req.topic b.store).1 in
      rw (on_topic, named)
        (
          lookup-create_topic_self req.topic s' (lookup-delete_topic_self req.topic b.store)
              ∙ ap (λ n. some (make_topic n req.topic)) (delete_topic-size req.topic b.store),
          lookup-create_topic_other req.topic s' other apart
              ∙ lookup-delete_topic_other req.topic b.store other apart,
          refl,
        )
