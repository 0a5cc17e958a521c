-- ===== src/Broker/Answers/Producers.antt =====
-- `HandlePublish` and `HandleBatchPublish` of src/mq/broker.cpp answer once.
use proto_msg_queue.Prelude.{
  is_empty, ℕ, refl, Bool, ◌&&◌, List, length, ltb, Bool-cases, Option-cases, inl, inr,
}
use proto_msg_queue.Protocol.Frame.{Frame}
use proto_msg_queue.Common.Compression.{Zlib}
use proto_msg_queue.Common.DedupWindow.{is_duplicate}
use proto_msg_queue.Common.RateLimiter.{Double}
use proto_msg_queue.Storage.Store.{publish}
use proto_msg_queue.Broker.{Broker, Peer, Readings}
use proto_msg_queue.Broker.BatchPublish.{
  handle_batch_publish, batch_if_permitted, store_batch, publish_all,
}
use proto_msg_queue.Broker.Messages.{Wire, PublishRequest}
use proto_msg_queue.Broker.Permits.{
  Permit, granted, conn_limited, globally_limited, acquire_permits,
}
use proto_msg_queue.Broker.Publish.{
  handle_publish, publish_request, if_permitted, store_and_announce, announce, is_tracked,
  compress_payload, ttl_of,
}
use proto_msg_queue.Broker.Replies.{response, code_response, push_frame}
use proto_msg_queue.Broker.Answers.{
  AnsweredOnce, answer_once, push_topic-IsPush, push_topics-IsPush,
}

module _ {W : Type 0} (wire : Wire) (zlib : Zlib) (d : Double W) where
  announce_once :
      (r : Readings) (req : PublishRequest) (id : ℕ) (payload : List ℕ) (c : Bool) (conn : Peer W)
      (b : Broker W)
      → AnsweredOnce (announce wire zlib d r req id payload c conn b).sends
  unfolding announce response push_frame
  announce_once r req id payload c conn b =
      (_, _, refl, push_topic-IsPush _ _ _ _ (inl refl) (λ _. inl refl), inl refl)

  store_and_announce_once :
      (r : Readings) (req : PublishRequest) (conn : Peer W) (b : Broker W)
      → AnsweredOnce (store_and_announce wire zlib d r req conn b).sends
  unfolding store_and_announce code_response
  store_and_announce_once r req conn b =
      let stored =
        publish req.topic (compress_payload zlib req b).0 (ttl_of req b) (r.publish_now 0)
          (r.publish_stamp 0) b.store in
      elim (Bool-cases stored.0) [
        | inl e ↦ rw e (announce_once r req _ _ _ conn _)
        | inr e ↦ rw e (answer_once _ conn _ (inl refl))
      ]

  if_permitted_once :
      (r : Readings) (req : PublishRequest) (p : Permit × Peer W × Broker W)
      → AnsweredOnce (if_permitted wire zlib d r req p).sends
  unfolding if_permitted code_response
  if_permitted_once r req (granted, conn, b) = store_and_announce_once r req conn b
  if_permitted_once r req (conn_limited, conn, b) = answer_once _ conn b (inl refl)
  if_permitted_once r req (globally_limited, conn, b) = answer_once _ conn b (inl refl)

  publish_request_once :
      (r : Readings) (req : PublishRequest) (conn : Peer W) (b : Broker W)
      → AnsweredOnce (publish_request wire zlib d r req conn b).sends
  unfolding publish_request response
  publish_request_once r req conn b =
      elim (Bool-cases
        (is_tracked req b && is_duplicate req.producer_id req.sequence_id b.dedup_window)) [
          | inl e ↦ rw e (answer_once _ conn b (inl refl))
          | inr e ↦ rw e (if_permitted_once r req (acquire_permits d 1 r conn b))
        ]

  pub handle_publish_once :
      (r : Readings) (f : Frame) (conn : Peer W) (b : Broker W)
      → AnsweredOnce (handle_publish wire zlib d r f conn b).sends
  unfolding handle_publish code_response
  handle_publish_once r f conn b = elim (Option-cases (wire.parse_publish f.payload)) [
    | inl e ↦ rw (e, handle_publish) (answer_once _ conn b (inl refl))
    | inr (req, e) ↦ rw (e, handle_publish) (publish_request_once r req conn b)
  ]

  store_batch_once :
      (r : Readings) (reqs : List PublishRequest) (conn : Peer W) (b : Broker W)
      → AnsweredOnce (store_batch wire zlib d r reqs conn b).sends
  unfolding store_batch code_response response
  store_batch_once r reqs conn b = elim (Bool-cases (is_empty (publish_all zlib r 0 reqs b).0)) [
    | inl e ↦ rw e (answer_once _ conn _ (inl refl))
    | inr e ↦ rw e (_, _, refl, push_topics-IsPush wire _ _ _, inl refl)
  ]

  batch_if_permitted_once :
      (r : Readings) (reqs : List PublishRequest) (p : Permit × Peer W × Broker W)
      → AnsweredOnce (batch_if_permitted wire zlib d r reqs p).sends
  unfolding batch_if_permitted code_response
  batch_if_permitted_once r reqs (granted, conn, b) =
      elim (Bool-cases (ltb b.config_manager.global_config.max_batch_size (length reqs))) [
        | inl e ↦ rw e (answer_once _ conn b (inl refl))
        | inr e ↦ rw e (store_batch_once r reqs conn b)
      ]
  batch_if_permitted_once r reqs (conn_limited, conn, b) = answer_once _ conn b (inl refl)
  batch_if_permitted_once r reqs (globally_limited, conn, b) = answer_once _ conn b (inl refl)

  pub handle_batch_publish_once :
      (r : Readings) (f : Frame) (conn : Peer W) (b : Broker W)
      → AnsweredOnce (handle_batch_publish wire zlib d r f conn b).sends
  unfolding handle_batch_publish code_response
  handle_batch_publish_once r f conn b = elim (Option-cases (wire.parse_batch_publish f.payload)) [
    | inl e ↦ rw (e, handle_batch_publish) (answer_once _ conn b (inl refl))
    | inr (reqs, e) ↦ elim (Bool-cases (is_empty reqs)) [
      | inl none_sent ↦ rw (e, handle_batch_publish, none_sent) (answer_once _ conn b (inl refl))
      | inr some_sent ↦ rw (e, handle_batch_publish, some_sent) (batch_if_permitted_once r reqs _)
    ]
  ]
