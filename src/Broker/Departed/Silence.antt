-- ===== src/Broker/Departed/Silence.antt =====
-- After `OnConnectionClosed` of src/mq/broker.cpp, over any frames that other connections send.
use proto_msg_queue.Prelude.{
  if_keeps, ℕ, ◌≡◌, ◌≢◌, sym, false, List, [], ◌∷◌, ◌++◌, All, All-append, All-weaken, ◌==◌, arith,
}
use proto_msg_queue.Protocol.Frame.{Frame, FrameMessageType}
use proto_msg_queue.Common.Compression.{Zlib}
use proto_msg_queue.Common.RateLimiter.{Double}
use proto_msg_queue.Topics.TopicManager.Connections.{IsOther}
use proto_msg_queue.Topics.TopicManager.Gone.{IsGone, unsubscribe_by_conn_id-IsGone}
use proto_msg_queue.Broker.{Broker, Peer, Send, Readings}
use proto_msg_queue.Broker.Consume.{handle_ping, on_connection_closed}
use proto_msg_queue.Broker.Departed.{NotTo, IsSilent, answer-IsSilent}
use proto_msg_queue.Broker.Departed.Handlers.{
  handle_publish-IsSilent, handle_batch_publish-IsSilent, handle_subscribe-IsSilent,
  handle_unsubscribe-IsSilent, handle_pull-IsSilent, handle_ack-IsSilent, handle_admin-IsSilent,
}
use proto_msg_queue.Broker.Dispatch.{handle_type, on_frame_received}
use proto_msg_queue.Broker.Messages.{Wire}

-- A frame, the connection that it came from, and the readings of the clocks while it is handled.
pub record Event (W : Type 0) : Type 0 where
  pub readings : Readings
  pub frame : Frame
  pub peer : Peer W

module _ {W : Type 0} (wire : Wire) (zlib : Zlib) (d : Double W) where
  -- The broker over a sequence of frames: all that it sends.
  unfoldable pub serve : List (Event W) → Broker W → List Send
  serve [] b = []
  serve (e ∷ es) b =
      let o = on_frame_received wire zlib d e.readings e.frame e.peer b in
      o.sends ++ serve es o.broker

  module _ (c : ℕ) (real : IsOther c 0) where
    handle_type-IsSilent :
        (t : FrameMessageType) (r : Readings) (f : Frame) (conn : Peer W) (b : Broker W)
        → IsOther c conn.id
        → IsGone c b.topic_manager
        → IsSilent c (handle_type wire zlib d t r f conn b)
    unfolding handle_type handle_ping
    handle_type-IsSilent FrameMessageType.publish r f conn b other gone =
        handle_publish-IsSilent wire zlib d c real r f conn b gone
    handle_type-IsSilent FrameMessageType.batch_publish r f conn b other gone =
        if_keeps (IsSilent c) b.config_manager.global_config.batch_publish_enabled _ _
          (handle_batch_publish-IsSilent wire zlib d c real r f conn b gone)
          (answer-IsSilent c _ conn b gone)
    handle_type-IsSilent FrameMessageType.subscribe r f conn b other gone =
        handle_subscribe-IsSilent wire c f conn b gone other
    handle_type-IsSilent FrameMessageType.unsubscribe r f conn b other gone =
        handle_unsubscribe-IsSilent wire c f conn b gone
    handle_type-IsSilent FrameMessageType.pull r f conn b other gone =
        handle_pull-IsSilent wire c f conn b gone r
    handle_type-IsSilent FrameMessageType.ack r f conn b other gone =
        handle_ack-IsSilent wire c f conn b gone
    handle_type-IsSilent FrameMessageType.ping r f conn b other gone =
        if_keeps (IsSilent c) b.config_manager.global_config.heartbeat_enabled _ _
          (answer-IsSilent c _ conn b gone) (record { not_sent = tt; gone = gone })
    handle_type-IsSilent FrameMessageType.admin r f conn b other gone =
        handle_admin-IsSilent wire c f conn b gone
    handle_type-IsSilent _ r f conn b other gone = answer-IsSilent c _ conn b gone

    serve-NotTo :
        (es : List (Event W)) (b : Broker W)
        → All (λ e. IsOther c e.peer.id) es
        → IsGone c b.topic_manager
        → All (NotTo c) (serve es b)
    unfolding serve on_frame_received
    serve-NotTo [] b others gone = tt
    serve-NotTo (e ∷ es) b others gone =
        let step =
          handle_type-IsSilent e.frame.msg_type e.readings e.frame e.peer b others.0 gone in
        All-append (NotTo c) _ _ step.not_sent (serve-NotTo es _ others.1 step.gone)

eq_false : (m n : ℕ) → m ≢ n → (m == n) ≡ false
eq_false m n h = ground arith

-- After a connection, which is not number zero, was reported closed, no sequence of frames from other
-- connections makes the broker send anything to it, whatever it was subscribed to before and however
-- the others subscribe, publish or administer in between.
pub on_connection_closed-NotTo :
    {W : Type 0} (wire : Wire) (zlib : Zlib) (d : Double W) (c : ℕ) (b : Broker W)
    (es : List (Event W))
    → c ≢ 0
    → All (λ e. e.peer.id ≢ c) es
    → All (NotTo c) (serve wire zlib d es (on_connection_closed c b))
unfolding on_connection_closed
on_connection_closed-NotTo wire zlib d c b es real others =
    serve-NotTo wire zlib d c (eq_false 0 c (λ e. real (sym e))) es _
      (All-weaken _ _ es (λ e h. eq_false e.peer.id c h) others)
      (unsubscribe_by_conn_id-IsGone c b.topic_manager)
