-- ===== src/Broker/Dedup.antt =====
-- Publishing the same message again: the deduplication window in `HandlePublish` of
-- src/mq/broker.cpp.
use proto_msg_queue.Prelude.{
  if_keeps, ℕ, ◌≡◌, refl, sym, ap, ◌∙◌, subst, Bool, true, false, ◌&&◌, not, some, [], is_empty,
  arith, if◌then◌else◌, Bool-cases, inl, inr,
}
use proto_msg_queue.Map.{text_beq_iff, text_eq}
use proto_msg_queue.Protocol.Frame.{Frame}
use proto_msg_queue.Common.Compression.{Zlib}
use proto_msg_queue.Common.DedupWindow.{
  DedupWindow, is_duplicate, mark_processed, is_duplicate-mark_processed,
}
use proto_msg_queue.Common.RateLimiter.{Double}
use proto_msg_queue.Network.Connection.Permits.{acquire_publish_permit}
use proto_msg_queue.Storage.Store.{publish}
use proto_msg_queue.Broker.{Broker, Peer, Outcome, Readings}
use proto_msg_queue.Broker.Messages.{Wire, PublishRequest}
use proto_msg_queue.Broker.Permits.{
  Permit, granted, conn_limited, globally_limited, acquire_permits,
}
use proto_msg_queue.Broker.Publish.{
  handle_publish, publish_request, if_permitted, store_and_announce, announce, is_tracked,
  compress_payload, ttl_of,
}
use proto_msg_queue.Broker.Replies.{response, answer}

-- Whether the store takes the message, once the rate limits let it pass.
unfoldable pub stores : {W : Type 0} → Zlib → Readings → PublishRequest → Broker W → Bool
stores zlib r req b =
    (publish req.topic (compress_payload zlib req b).0 (ttl_of req b) (r.publish_now 0)
      (r.publish_stamp 0) b.store).0

unfoldable pub is_accepted_by :
    {W : Type 0} → Zlib → Readings → PublishRequest → Permit × Peer W × Broker W → Bool
is_accepted_by zlib r req (granted, conn, b) = stores zlib r req b
is_accepted_by zlib r req (conn_limited, conn, b) = false
is_accepted_by zlib r req (globally_limited, conn, b) = false

-- Whether a message that is no duplicate is published: both limits and the store let it pass.
unfoldable pub is_accepted :
    {W : Type 0} → Zlib → Double W → Readings → PublishRequest → Peer W → Broker W → Bool
is_accepted zlib d r req conn b = is_accepted_by zlib r req (acquire_permits d 1 r conn b)

-- What handling a frame keeps of the state on which the window depends.
pub record KeepsWindow {W : Type 0} (b b' : Broker W) : Type 0 where
  pub config : b'.config_manager ≡ b.config_manager
  pub window : b'.dedup_window ≡ b.dedup_window

module _ {W : Type 0} (d : Double W) (n : ℕ) (r : Readings) (conn : Peer W) (b : Broker W) where
  pub acquire_permits-KeepsWindow : KeepsWindow b (acquire_permits d n r conn b).2
  unfolding acquire_permits
  acquire_permits-KeepsWindow =
      let P = λ (o : Permit × Peer W × Broker W). KeepsWindow b o.2 in
      if_keeps P b.config_manager.global_config.rate_limit_enabled _ _
        (if_keeps P
          (acquire_publish_permit d n r.limiter_made r.limiter_now conn.config
            conn.publish_limiter).0
          _ _ (record { config = refl; window = refl }) (record { config = refl; window = refl }))
        (record { config = refl; window = refl })

tracked_named :
    {W : Type 0} (req : PublishRequest) (b : Broker W)
    → is_tracked req b ≡ true
    → is_empty req.producer_id ≡ false
unfolding is_tracked
tracked_named req b h = ground arith

module _ {W : Type 0} (wire : Wire) (zlib : Zlib) (d : Double W) where
  marked_is_duplicate :
      (now : ℕ) (req : PublishRequest) (w : DedupWindow)
      → is_empty req.producer_id ≡ false
      → is_duplicate req.producer_id req.sequence_id
          (mark_processed now req.producer_id req.sequence_id w)
        ≡ true
  marked_is_duplicate now req w named =
      let p = req.producer_id in
      let n = req.sequence_id in
      ground (arith, is_duplicate-mark_processed now p p n n w, (text_beq_iff p p).1 refl, named)

  store_and_announce-window :
      (r : Readings) (req : PublishRequest) (conn : Peer W) (b : Broker W)
      → is_tracked req b ≡ true
      → (store_and_announce wire zlib d r req conn b).broker.dedup_window ≡ (
          if stores zlib r req b
          then mark_processed r.marked req.producer_id req.sequence_id b.dedup_window
          else b.dedup_window)
  unfolding store_and_announce stores announce answer is_tracked
  store_and_announce-window r req conn b tracked = elim (Bool-cases (stores zlib r req b)) [
    | inl e ↦ rw (e) (rw (tracked) refl)
    | inr e ↦ rw (e) refl
  ]

  store_and_announce-config :
      (r : Readings) (req : PublishRequest) (conn : Peer W) (b : Broker W)
      → (store_and_announce wire zlib d r req conn b).broker.config_manager ≡ b.config_manager
  unfolding store_and_announce announce answer
  store_and_announce-config r req conn b =
      if_keeps (λ (o : Outcome W). o.broker.config_manager ≡ b.config_manager)
        (publish req.topic (compress_payload zlib req b).0 (ttl_of req b) (r.publish_now 0)
          (r.publish_stamp 0) b.store).0
        _ _ refl refl

  if_permitted-config :
      (r : Readings) (req : PublishRequest) (p : Permit × Peer W × Broker W)
      → (if_permitted wire zlib d r req p).broker.config_manager ≡ p.2.config_manager
  unfolding if_permitted answer
  if_permitted-config r req (granted, conn, b) = store_and_announce-config r req conn b
  if_permitted-config r req (conn_limited, conn, b) = refl
  if_permitted-config r req (globally_limited, conn, b) = refl

  if_permitted-window :
      (r : Readings) (req : PublishRequest) (p : Permit × Peer W × Broker W)
      → is_tracked req p.2 ≡ true
      → (if_permitted wire zlib d r req p).broker.dedup_window ≡ (
          if is_accepted_by zlib r req p
          then mark_processed r.marked req.producer_id req.sequence_id p.2.dedup_window
          else p.2.dedup_window)
  unfolding if_permitted answer is_accepted_by
  if_permitted-window r req (granted, conn, b) h = store_and_announce-window r req conn b h
  if_permitted-window r req (conn_limited, conn, b) h = refl
  if_permitted-window r req (globally_limited, conn, b) h = refl

  duplicate_answer :
      (r : Readings) (f : Frame) (conn : Peer W) (b : Broker W) (req : PublishRequest)
      → wire.parse_publish f.payload ≡ some req
      → is_tracked req b ≡ true
      → is_duplicate req.producer_id req.sequence_id b.dedup_window ≡ true
      → handle_publish wire zlib d r f conn b
        ≡ answer (response wire true [] req.sequence_id) conn b
  unfolding handle_publish publish_request
  duplicate_answer r f conn b req parsed tracked old =
      rw (parsed, handle_publish, tracked, old) refl

  publish_request-config :
      (r : Readings) (req : PublishRequest) (conn : Peer W) (b : Broker W)
      → (publish_request wire zlib d r req conn b).broker.config_manager ≡ b.config_manager
  unfolding publish_request answer
  publish_request-config r req conn b =
      if_keeps (λ (o : Outcome W). o.broker.config_manager ≡ b.config_manager)
        (is_tracked req b && is_duplicate req.producer_id req.sequence_id b.dedup_window) _ _ refl
        (if_permitted-config r req _ ∙ (acquire_permits-KeepsWindow d 1 r conn b).config)

  module _ (r : Readings) (f : Frame) (conn : Peer W) (b : Broker W) (req : PublishRequest) where
    -- A message with a producer's name that is no duplicate is marked in the deduplication window if
    -- both rate limits and the store let it pass, and otherwise the window is as it was: a refused
    -- message can be sent again.
    pub handle_publish-window :
        wire.parse_publish f.payload ≡ some req
        → is_tracked req b ≡ true
        → is_duplicate req.producer_id req.sequence_id b.dedup_window ≡ false
        → (handle_publish wire zlib d r f conn b).broker.dedup_window ≡ (
            if is_accepted zlib d r req conn b
            then mark_processed r.marked req.producer_id req.sequence_id b.dedup_window
            else b.dedup_window)
    unfolding handle_publish publish_request is_accepted is_tracked
    handle_publish-window parsed tracked new =
        let p = acquire_permits d 1 r conn b in
        let kept = acquire_permits-KeepsWindow d 1 r conn b in
        let tracked' : is_tracked req p.2 ≡ true =
          subst (λ c. (c.global_config.dedup_enabled && not (is_empty req.producer_id)) ≡ true)
            (sym kept.config) tracked in
        rw (parsed, handle_publish, tracked, new)
          (if_permitted-window r req p tracked'
            ∙ ap
                (λ w.
                  if is_accepted_by zlib r req p
                  then mark_processed r.marked req.producer_id req.sequence_id w
                  else w)
                kept.window)

    -- A message with a producer's name that was published is published once: however often the same
    -- frame comes again, from whatever connection, it is answered with success and its sequence
    -- number, nobody is sent it, and neither the broker nor the connection's limit changes.
    pub publish_twice :
        (r' : Readings) (conn' : Peer W)
        → wire.parse_publish f.payload ≡ some req
        → is_tracked req b ≡ true
        → is_accepted zlib d r req conn b ≡ true
        → let b' = (handle_publish wire zlib d r f conn b).broker in
          handle_publish wire zlib d r' f conn' b'
          ≡ answer (response wire true [] req.sequence_id) conn' b'
    unfolding is_tracked handle_publish answer
    publish_twice r' conn' parsed tracked accepted =
        let b' = (handle_publish wire zlib d r f conn b).broker in
        let config : b'.config_manager ≡ b.config_manager =
          rw (parsed, handle_publish) (publish_request-config r req conn b) in
        let tracked' : is_tracked req b' ≡ true =
          subst (λ c. (c.global_config.dedup_enabled && not (is_empty req.producer_id)) ≡ true)
            (sym config) tracked in
        let marked : is_duplicate req.producer_id req.sequence_id b'.dedup_window ≡ true =
          elim (Bool-cases (is_duplicate req.producer_id req.sequence_id b.dedup_window)) [
            | inl old ↦ rw (duplicate_answer r f conn b req parsed tracked old) old
            | inr new ↦
                ap (is_duplicate req.producer_id req.sequence_id)
                  (handle_publish-window parsed tracked new)
                ∙ rw (accepted)
                    (marked_is_duplicate r.marked req b.dedup_window (tracked_named req b tracked))
          ] in
        duplicate_answer r' f conn' b' req parsed tracked' marked
