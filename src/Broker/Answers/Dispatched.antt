-- ===== src/Broker/Answers/Dispatched.antt =====
-- `OnFrameReceived` of src/mq/broker.cpp answers once.
use proto_msg_queue.Prelude.{if_keeps, ◌≢◌, refl, inl}
use proto_msg_queue.Protocol.Frame.{Frame, FrameMessageType}
use proto_msg_queue.Common.Compression.{Zlib}
use proto_msg_queue.Common.RateLimiter.{Double}
use proto_msg_queue.Broker.{Outcome, Broker, Peer, Readings}
use proto_msg_queue.Broker.Dispatch.{handle_type, on_frame_received}
use proto_msg_queue.Broker.Messages.{Wire}
use proto_msg_queue.Broker.Replies.{code_response}
use proto_msg_queue.Broker.Answers.{AnsweredOnce, answer_once}
use proto_msg_queue.Broker.Answers.Producers.{handle_publish_once, handle_batch_publish_once}
use proto_msg_queue.Broker.Answers.Consumers.{
  handle_subscribe_once, handle_unsubscribe_once, handle_pull_once, handle_ack_once,
  handle_admin_once,
}

module _ {W : Type 0} (wire : Wire) (zlib : Zlib) (d : Double W) where
  handle_type_once :
      (t : FrameMessageType) (r : Readings) (f : Frame) (conn : Peer W) (b : Broker W)
      → t ≢ FrameMessageType.ping
      → AnsweredOnce (handle_type wire zlib d t r f conn b).sends
  unfolding handle_type code_response
  handle_type_once FrameMessageType.publish r f conn b h =
      handle_publish_once wire zlib d r f conn b
  handle_type_once FrameMessageType.batch_publish r f conn b h =
      if_keeps (λ (o : Outcome W). AnsweredOnce o.sends)
        b.config_manager.global_config.batch_publish_enabled _ _
        (handle_batch_publish_once wire zlib d r f conn b) (answer_once _ conn b (inl refl))
  handle_type_once FrameMessageType.subscribe r f conn b h = handle_subscribe_once wire f conn b
  handle_type_once FrameMessageType.unsubscribe r f conn b h = handle_unsubscribe_once wire f conn b
  handle_type_once FrameMessageType.pull r f conn b h = handle_pull_once wire r f conn b
  handle_type_once FrameMessageType.ack r f conn b h = handle_ack_once wire f conn b
  handle_type_once FrameMessageType.ping r f conn b h = absurd (h refl)
  handle_type_once FrameMessageType.admin r f conn b h = handle_admin_once wire f conn b
  handle_type_once _ r f conn b h = answer_once _ conn b (inl refl)

  -- Whatever the broker is sent, except a ping, the connection that sent it gets exactly one answer,
  -- a Response or an Admin frame, and gets it last: all frames sent before it, to this connection or to
  -- others, are pushes of messages.
  pub on_frame_received_once :
      (r : Readings) (f : Frame) (conn : Peer W) (b : Broker W)
      → f.msg_type ≢ FrameMessageType.ping
      → AnsweredOnce (on_frame_received wire zlib d r f conn b).sends
  unfolding on_frame_received
  on_frame_received_once r f conn b h = handle_type_once f.msg_type r f conn b h
