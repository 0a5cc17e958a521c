-- ===== src/Broker/Departed/Handlers.antt =====
-- Every handler of src/mq/broker.cpp leaves a departed connection alone.
use proto_msg_queue.Prelude.{
  if_keeps, option_keeps, is_empty, ℕ, suc, Bool, ◌&&◌, List, [], ◌∷◌, length, All, All-append, ltb,
}
use proto_msg_queue.Map.{Text}
use proto_msg_queue.Protocol.Frame.{Frame}
use proto_msg_queue.Common.Compression.{Zlib}
use proto_msg_queue.Common.DedupWindow.{is_duplicate}
use proto_msg_queue.Common.RateLimiter.{Double}
use proto_msg_queue.Network.Connection.Permits.{acquire_publish_permit}
use proto_msg_queue.Storage.Message.{StoredMessage}
use proto_msg_queue.Storage.Store.{publish}
use proto_msg_queue.Topics.TopicManager.Connections.{IsOther}
use proto_msg_queue.Topics.TopicManager.Gone.{
  IsGone, subscribe-IsGone, unsubscribe-IsGone, unregister_topic-IsGone,
}
use proto_msg_queue.Broker.{Broker, Peer, Readings}
use proto_msg_queue.Broker.Admin.{handle_admin, run_command, result, on_topic}
use proto_msg_queue.Broker.BatchPublish.{
  handle_batch_publish, batch_if_permitted, store_batch, publish_all,
}
use proto_msg_queue.Broker.Consume.{
  handle_subscribe, handle_unsubscribe, handle_pull, handle_ack, push_each, push_pulled, info_of,
  subscribe_request, unsubscribe_request, pull_request, ack_request,
}
use proto_msg_queue.Broker.Departed.{
  NotTo, IsSilent, answer-IsSilent, push_topic-NotTo, push_topics-NotTo,
}
use proto_msg_queue.Broker.Messages.{Wire, PublishRequest, AdminRequest, AdminCommandType}
use proto_msg_queue.Broker.Permits.{
  Permit, granted, conn_limited, globally_limited, acquire_permits,
}
use proto_msg_queue.Broker.Publish.{
  handle_publish, publish_request, if_permitted, store_and_announce, announce, is_tracked,
  compress_payload, ttl_of,
}
use proto_msg_queue.Broker.Replies.{send_if, send_push_message, send_batch_push_message}

module _ {W : Type 0} (wire : Wire) (zlib : Zlib) (d : Double W) (c : ℕ) (real : IsOther c 0) where
  acquire_permits-IsGone :
      (n : ℕ) (r : Readings) (conn : Peer W) (b : Broker W)
      → IsGone c b.topic_manager
      → IsGone c (acquire_permits d n r conn b).2.topic_manager
  unfolding acquire_permits
  acquire_permits-IsGone n r conn b gone =
      let P = λ (o : Permit × Peer W × Broker W). IsGone c o.2.topic_manager in
      if_keeps P b.config_manager.global_config.rate_limit_enabled _ _
        (if_keeps P
          (acquire_publish_permit d n r.limiter_made r.limiter_now conn.config
            conn.publish_limiter).0
          _ _ gone gone)
        gone

  store_and_announce-IsSilent :
      (r : Readings) (req : PublishRequest) (conn : Peer W) (b : Broker W)
      → IsGone c b.topic_manager
      → IsSilent c (store_and_announce wire zlib d r req conn b)
  unfolding store_and_announce announce
  store_and_announce-IsSilent r req conn b gone =
      if_keeps (IsSilent c)
        (publish req.topic (compress_payload zlib req b).0 (ttl_of req b) (r.publish_now 0)
          (r.publish_stamp 0) b.store).0
        _ _
        (let pushes = push_topic-NotTo c real _ _ req.topic b.topic_manager gone in
          record { not_sent = All-append (NotTo c) _ _ pushes.0 (tt, tt); gone = pushes.1 })
        (answer-IsSilent c _ conn _ gone)

  if_permitted-IsSilent :
      (r : Readings) (req : PublishRequest) (p : Permit × Peer W × Broker W)
      → IsGone c p.2.topic_manager
      → IsSilent c (if_permitted wire zlib d r req p)
  unfolding if_permitted
  if_permitted-IsSilent r req (granted, conn, b) gone =
      store_and_announce-IsSilent r req conn b gone
  if_permitted-IsSilent r req (conn_limited, conn, b) gone = answer-IsSilent c _ conn b gone
  if_permitted-IsSilent r req (globally_limited, conn, b) gone = answer-IsSilent c _ conn b gone

  pub handle_publish-IsSilent :
      (r : Readings) (f : Frame) (conn : Peer W) (b : Broker W)
      → IsGone c b.topic_manager
      → IsSilent c (handle_publish wire zlib d r f conn b)
  unfolding handle_publish publish_request
  handle_publish-IsSilent r f conn b gone =
      option_keeps (IsSilent c) (wire.parse_publish f.payload) _ _ (answer-IsSilent c _ conn b gone)
        λ req e.
          if_keeps (IsSilent c)
            (is_tracked req b && is_duplicate req.producer_id req.sequence_id b.dedup_window) _ _
            (answer-IsSilent c _ conn b gone)
            (if_permitted-IsSilent r req _ (acquire_permits-IsGone 1 r conn b gone))

  publish_all-IsGone :
      (r : Readings) (i : ℕ) (reqs : List PublishRequest) (b : Broker W)
      → IsGone c b.topic_manager
      → IsGone c (publish_all zlib r i reqs b).1.topic_manager
  unfolding publish_all
  publish_all-IsGone r i [] b gone = gone
  publish_all-IsGone r i (req ∷ reqs) b gone = publish_all-IsGone r (suc i) reqs _ gone

  store_batch-IsSilent :
      (r : Readings) (reqs : List PublishRequest) (conn : Peer W) (b : Broker W)
      → IsGone c b.topic_manager
      → IsSilent c (store_batch wire zlib d r reqs conn b)
  unfolding store_batch
  store_batch-IsSilent r reqs conn b gone =
      let gone' = publish_all-IsGone r 0 reqs b gone in
      let pushes = push_topics-NotTo c real wire _ _ _ gone' in
      if_keeps (IsSilent c) (is_empty (publish_all zlib r 0 reqs b).0) _ _
        (answer-IsSilent c _ conn _ gone')
        (record { not_sent = All-append (NotTo c) _ _ pushes.0 (tt, tt); gone = pushes.1 })

  batch_if_permitted-IsSilent :
      (r : Readings) (reqs : List PublishRequest) (p : Permit × Peer W × Broker W)
      → IsGone c p.2.topic_manager
      → IsSilent c (batch_if_permitted wire zlib d r reqs p)
  unfolding batch_if_permitted
  batch_if_permitted-IsSilent r reqs (granted, conn, b) gone =
      if_keeps (IsSilent c) (ltb b.config_manager.global_config.max_batch_size (length reqs)) _ _
        (answer-IsSilent c _ conn b gone) (store_batch-IsSilent r reqs conn b gone)
  batch_if_permitted-IsSilent r reqs (conn_limited, conn, b) gone = answer-IsSilent c _ conn b gone
  batch_if_permitted-IsSilent r reqs (globally_limited, conn, b) gone =
      answer-IsSilent c _ conn b gone

  pub handle_batch_publish-IsSilent :
      (r : Readings) (f : Frame) (conn : Peer W) (b : Broker W)
      → IsGone c b.topic_manager
      → IsSilent c (handle_batch_publish wire zlib d r f conn b)
  unfolding handle_batch_publish
  handle_batch_publish-IsSilent r f conn b gone =
      option_keeps (IsSilent c) (wire.parse_batch_publish f.payload) _ _
        (answer-IsSilent c _ conn b gone)
        λ reqs e. if_keeps (IsSilent c) (is_empty reqs) _ _ (answer-IsSilent c _ conn b gone) (
          batch_if_permitted-IsSilent r reqs _ (acquire_permits-IsGone (length reqs) r conn b gone))

module _ {W : Type 0} (wire : Wire) (c : ℕ) (f : Frame) (conn : Peer W) (b : Broker W)
    (gone : IsGone c b.topic_manager) where
  pub handle_subscribe-IsSilent : IsOther c conn.id → IsSilent c (handle_subscribe wire f conn b)
  unfolding handle_subscribe subscribe_request info_of
  handle_subscribe-IsSilent other =
      option_keeps (IsSilent c) (wire.parse_subscribe f.payload) _ _
        (answer-IsSilent c _ conn b gone)
        λ req e. answer-IsSilent c _ conn _ (
          subscribe-IsGone c req.topic (info_of req.subscriber_id conn.id) req.group_id
            b.topic_manager other gone)

  pub handle_unsubscribe-IsSilent : IsSilent c (handle_unsubscribe wire f conn b)
  unfolding handle_unsubscribe unsubscribe_request
  handle_unsubscribe-IsSilent =
      option_keeps (IsSilent c) (wire.parse_unsubscribe f.payload) _ _
        (answer-IsSilent c _ conn b gone)
        λ req e.
          answer-IsSilent c _ conn _
            (unsubscribe-IsGone c req.topic req.subscriber_id req.group_id b.topic_manager gone)

  pub handle_ack-IsSilent : IsSilent c (handle_ack wire f conn b)
  unfolding handle_ack ack_request
  handle_ack-IsSilent =
      option_keeps (IsSilent c) (wire.parse_ack f.payload) _ _ (answer-IsSilent c _ conn b gone)
        λ req e. answer-IsSilent c _ conn _ gone

  push_each-NotTo :
      (topic : Text) (ms : List StoredMessage) → All (NotTo c) (push_each wire conn topic ms)
  unfolding push_each send_push_message send_if
  push_each-NotTo topic [] = tt
  push_each-NotTo topic (m ∷ ms) = (tt, push_each-NotTo topic ms)

  push_pulled-NotTo :
      (batch : Bool) (topic : Text) (ms : List StoredMessage)
      → All (NotTo c) (push_pulled wire batch conn topic ms)
  unfolding push_pulled send_batch_push_message send_if
  push_pulled-NotTo batch topic ms =
      if_keeps (All (NotTo c)) (batch && ltb 1 (length ms)) _ _ (tt, tt) (push_each-NotTo topic ms)

  pub handle_pull-IsSilent : (r : Readings) → IsSilent c (handle_pull wire r f conn b)
  unfolding handle_pull pull_request
  handle_pull-IsSilent r =
      option_keeps (IsSilent c) (wire.parse_pull f.payload) _ _ (answer-IsSilent c _ conn b gone)
        λ req e. record {
          not_sent = All-append (NotTo c) _ _ (push_pulled-NotTo _ req.topic _) (tt, tt);
          gone = gone;
        }

  on_topic-IsSilent :
      (req : AdminRequest) (json : Text) (b' : Broker W)
      → IsGone c b'.topic_manager
      → IsSilent c (on_topic wire req (result wire json conn b') conn b)
  unfolding on_topic result
  on_topic-IsSilent req json b' gone' =
      if_keeps (IsSilent c) (is_empty req.topic) _ _ (answer-IsSilent c _ conn b gone)
        (answer-IsSilent c _ conn b' gone')

  run_command-IsSilent :
      (k : AdminCommandType) (req : AdminRequest) → IsSilent c (run_command wire k req conn b)
  unfolding run_command result
  run_command-IsSilent AdminCommandType.list_topics req = answer-IsSilent c _ conn b gone
  run_command-IsSilent AdminCommandType.get_topic_info req = on_topic-IsSilent req _ b gone
  run_command-IsSilent AdminCommandType.delete_topic req =
      on_topic-IsSilent req _ _ (unregister_topic-IsGone c req.topic b.topic_manager gone)
  run_command-IsSilent AdminCommandType.get_stats req = answer-IsSilent c _ conn b gone
  run_command-IsSilent AdminCommandType.get_connections req = answer-IsSilent c _ conn b gone
  run_command-IsSilent AdminCommandType.cleanup_topic req = on_topic-IsSilent req _ _ gone
  run_command-IsSilent _ req = answer-IsSilent c _ conn b gone

  pub handle_admin-IsSilent : IsSilent c (handle_admin wire f conn b)
  unfolding handle_admin
  handle_admin-IsSilent =
      option_keeps (IsSilent c) (wire.parse_admin f.payload) _ _ (answer-IsSilent c _ conn b gone)
        λ req e. run_command-IsSilent req.command req
