-- ===== src/Broker/Dispatch.antt =====
-- `OnFrameReceived` of src/mq/broker.cpp, and the constructor.
use proto_msg_queue.Prelude.{ℕ, none, some, [], if◌then◌else◌}
use proto_msg_queue.Map.{codes}
use proto_msg_queue.Protocol.Frame.{Frame, FrameMessageType}
use proto_msg_queue.Common.Compression.{Zlib}
use proto_msg_queue.Common.Config.{BrokerConfig, make_config_manager}
use proto_msg_queue.Common.ErrorCode.{ErrorCode}
use proto_msg_queue.Common.RateLimiter.{Double, make_bucket}
use proto_msg_queue.Storage.Store.{MemoryMessageStore}
use proto_msg_queue.Broker.{Broker, Peer, Outcome, Readings}
use proto_msg_queue.Broker.Admin.{handle_admin}
use proto_msg_queue.Broker.BatchPublish.{handle_batch_publish}
use proto_msg_queue.Broker.Consume.{
  handle_subscribe, handle_unsubscribe, handle_pull, handle_ack, handle_ping,
}
use proto_msg_queue.Broker.Messages.{Wire}
use proto_msg_queue.Broker.Publish.{handle_publish}
use proto_msg_queue.Broker.Replies.{code_response, answer}

-- The constructor, at a reading of the steady clock
unfoldable pub make_broker :
    {W : Type 0} → Double W → MemoryMessageStore → BrokerConfig → ℕ → Broker W
make_broker d store config now = record {
  store = store;
  topic_manager = record {
    topics = [];
    subscribers = [];
    consumer_groups = [];
    topic_configs = [];
  };
  config_manager = make_config_manager config;
  dedup_window = record { producers = []; max_producers = config.dedup_window_size };
  global_publish_limiter =
      if config.rate_limit_enabled
      then some (make_bucket d config.global_publish_rate config.rate_limit_burst now)
      else none;
}

module _ {W : Type 0} (wire : Wire) (zlib : Zlib) (d : Double W) where
  unfoldable pub handle_type : FrameMessageType → Readings → Frame → Peer W → Broker W → Outcome W
  handle_type FrameMessageType.publish r f conn b = handle_publish wire zlib d r f conn b
  handle_type FrameMessageType.batch_publish r f conn b =
      if b.config_manager.global_config.batch_publish_enabled
      then handle_batch_publish wire zlib d r f conn b
      else answer
          (code_response wire ErrorCode.invalid_request (codes "Batch publish is disabled") 0) conn
          b
  handle_type FrameMessageType.subscribe r f conn b = handle_subscribe wire f conn b
  handle_type FrameMessageType.unsubscribe r f conn b = handle_unsubscribe wire f conn b
  handle_type FrameMessageType.pull r f conn b = handle_pull wire r f conn b
  handle_type FrameMessageType.ack r f conn b = handle_ack wire f conn b
  handle_type FrameMessageType.ping r f conn b =
      if b.config_manager.global_config.heartbeat_enabled
      then handle_ping conn b
      else (record { sends = []; peer = conn; broker = b })
  handle_type FrameMessageType.admin r f conn b = handle_admin wire f conn b
  handle_type _ r f conn b =
      answer (code_response wire ErrorCode.unknown (codes "Unknown message type") 0) conn b

  -- `OnFrameReceived`
  unfoldable pub on_frame_received : Readings → Frame → Peer W → Broker W → Outcome W
  on_frame_received r f conn b = handle_type f.msg_type r f conn b
