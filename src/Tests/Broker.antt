-- ===== src/Tests/Broker.antt =====
-- A broker with one subscriber, over a wire format in which a payload's first byte names the topic.
use proto_msg_queue.Prelude.{
  ℕ, ◌≡◌, refl, true, false, Option, none, some, List, [], ◌∷◌, arith, All, ◌&&◌, if◌then◌else◌,
}
use proto_msg_queue.Map.{text_eq, lookup}
use proto_msg_queue.Protocol.Frame.{Frame, FrameMessageType}
use proto_msg_queue.RingBuffer.{push, make}
use proto_msg_queue.Common.Config.{default_config, make_config_manager}
use proto_msg_queue.Common.DedupWindow.{is_duplicate, has_seen, mark_processed}
use proto_msg_queue.Common.RateLimiter.{make_bucket, refill, cap_tokens, acquire}
use proto_msg_queue.Network.Connection.Permits.{
  acquire_publish_permit, limiter_or_new, is_unlimited,
}
use proto_msg_queue.Bytes.{be_bytes}
use proto_msg_queue.Storage.Message.{serialize}
use proto_msg_queue.Storage.Store.{publish, topic_or_new}
use proto_msg_queue.Storage.Topic.{make_topic, publish_to}
use proto_msg_queue.Topics.TopicManager.{get_subscribers, get_consumer_groups, is_registered}
use proto_msg_queue.Tests.Limits.{nano_double, boxing}
use proto_msg_queue.Broker.{Broker, Peer, to_conn, Readings}
use proto_msg_queue.Broker.Admin.{run_command}
use proto_msg_queue.Broker.Answers.{AnsweredOnce}
use proto_msg_queue.Broker.Answers.Dispatched.{on_frame_received_once}
use proto_msg_queue.Broker.Consume.{on_connection_closed}
use proto_msg_queue.Broker.Dedup.{
  is_accepted, is_accepted_by, stores, handle_publish-window, publish_twice,
}
use proto_msg_queue.Broker.Deletion.{delete_topic_lem}
use proto_msg_queue.Broker.Departed.{NotTo}
use proto_msg_queue.Broker.Departed.Silence.{serve, on_connection_closed-NotTo}
use proto_msg_queue.Broker.Dispatch.{on_frame_received}
use proto_msg_queue.Broker.Messages.{Wire, PublishRequest, AdminCommandType, AdminRequest}
use proto_msg_queue.Broker.Permits.{conn_limited, global_permit, acquire_permits}
use proto_msg_queue.Broker.Publish.{
  handle_publish, is_tracked, compress_payload, should_compress, ttl_of,
}
use proto_msg_queue.Broker.Refusals.{
  is_request, IsRefusal, IsTurnedAway, KeepsAll, on_frame_received-IsTurnedAway,
  handle_publish_limited,
}
use proto_msg_queue.Broker.Replies.{response, answer, frame_of}

parse_publish : List ℕ → Option PublishRequest
parse_publish [] = none
parse_publish (b ∷ p) = some (record {
  topic = b ∷ [];
  payload = p;
  ttl_ms = 0;
  compressed = false;
  producer_id = 112 ∷ [];
  sequence_id = 5;
})

abbrev wire : Wire
wire = record {
  parse_publish = parse_publish;
  parse_batch_publish = λ p. none;
  parse_subscribe = λ p. none;
  parse_unsubscribe = λ p. none;
  parse_pull = λ p. none;
  parse_ack = λ p. none;
  parse_admin = λ p. none;
  serialize_response = λ m. m.error_code ∷ m.message_id ∷ [];
  serialize_push = λ m. m.payload;
  serialize_batch_push = λ ms. [];
  serialize_admin_response = λ m. m.json_result;
}

abbrev request : PublishRequest
request = record {
  topic = 116 ∷ [];
  payload = 1 ∷ 2 ∷ [];
  ttl_ms = 0;
  compressed = false;
  producer_id = 112 ∷ [];
  sequence_id = 5;
}

abbrev publish_frame : Frame
publish_frame = frame_of FrameMessageType.publish (116 ∷ 1 ∷ 2 ∷ [])

abbrev pub broker : Broker ℕ
broker = record {
  store = record {
    topics = [];
    dlq_storage = [];
    default_buffer_size = 64;
    max_retry_count = 3;
    pending_timeout_ms = 5000;
  };
  topic_manager = record {
    topics = [];
    subscribers = (116 ∷ [], record { id = 97 ∷ []; conn_id = 4 } ∷ []) ∷ [];
    consumer_groups = [];
    topic_configs = [];
  };
  config_manager = make_config_manager default_config;
  dedup_window = record { producers = []; max_producers = 10 };
  global_publish_limiter = none;
}

-- A connection whose limit lets that many more messages pass
abbrev client : ℕ → Peer ℕ
client n = record {
  id = 1;
  config = some default_config;
  publish_limiter = some (make_bucket nano_double 1000 n 0);
}

abbrev clocks : Readings
clocks = record {
  limiter_made = 0;
  limiter_now = 0;
  global_now = 0;
  publish_now = λ i. 100;
  publish_stamp = λ i. 100;
  push_stamp = λ i. 100;
  pull_now = 100;
  pull_clock = λ i. 100;
  marked = 7;
}

on_frame_received_once_example :
    AnsweredOnce
      (on_frame_received wire boxing nano_double clocks publish_frame (client 2) broker).sends
on_frame_received_once_example =
    on_frame_received_once wire boxing nano_double clocks publish_frame (client 2) broker (λ e. cc)

parsed : wire.parse_publish publish_frame.payload ≡ some request
unfolding parse_publish
parsed = refl

tracked : is_tracked request broker ≡ true
unfolding is_tracked make_config_manager
tracked = refl

accepted : is_accepted boxing nano_double clocks request (client 2) broker ≡ true
unfolding is_accepted is_accepted_by stores acquire_permits acquire_publish_permit limiter_or_new
    is_unlimited global_permit acquire refill cap_tokens make_bucket compress_payload
    should_compress ttl_of make_config_manager publish topic_or_new make_topic publish_to push make
    serialize be_bytes lookup
accepted = refl

publish_twice_example :
    let b' =
      (handle_publish wire boxing nano_double clocks publish_frame (client 2) broker).broker in
    handle_publish wire boxing nano_double clocks publish_frame (client 0) b'
    ≡ answer (response wire true [] 5) (client 0) b'
publish_twice_example =
    publish_twice wire boxing nano_double clocks publish_frame (client 2) broker request clocks
      (client 0) parsed tracked accepted

handle_publish-window_example :
    (handle_publish wire boxing nano_double clocks publish_frame
      (client 2)
      broker).broker.dedup_window
    ≡ (if is_accepted boxing nano_double clocks request (client 2) broker
        then mark_processed 7 (112 ∷ []) 5 broker.dedup_window
        else broker.dedup_window)
unfolding is_duplicate lookup has_seen
handle_publish-window_example =
    handle_publish-window wire boxing nano_double clocks publish_frame (client 2) broker request
      parsed tracked refl

-- The subscriber's connection is reported closed, and then the message is published.
on_connection_closed-NotTo_example : All (NotTo 4) (
    serve wire boxing nano_double
      (record { readings = clocks; frame = publish_frame; peer = client 2 } ∷ [])
      (on_connection_closed 4 broker))
on_connection_closed-NotTo_example =
    on_connection_closed-NotTo wire boxing nano_double 4 broker
      (record { readings = clocks; frame = publish_frame; peer = client 2 } ∷ []) (omega arith)
      (omega arith)

on_frame_received-IsTurnedAway_example :
    IsTurnedAway wire FrameMessageType.publish (client 2) broker (
      on_frame_received wire boxing nano_double clocks
        (frame_of FrameMessageType.publish [])
        (client 2)
        broker)
unfolding is_request parse_publish
on_frame_received-IsTurnedAway_example =
    on_frame_received-IsTurnedAway wire boxing nano_double clocks
      (frame_of FrameMessageType.publish []) (client 2) broker refl

new : (is_tracked request broker && is_duplicate (112 ∷ []) 5 broker.dedup_window) ≡ false
unfolding is_tracked make_config_manager is_duplicate lookup has_seen
new = refl

limited : (acquire_permits nano_double 1 clocks (client 0) broker).0 ≡ conn_limited
unfolding acquire_permits acquire_publish_permit limiter_or_new is_unlimited acquire refill
    cap_tokens make_bucket make_config_manager
limited = refl

handle_publish_limited_example :
    (g : Frame) × ((handle_publish wire boxing nano_double clocks publish_frame
        (client 0)
        broker).sends
      ≡ to_conn g ∷ [])
    × IsRefusal wire 7 g
    × KeepsAll broker
        (handle_publish wire boxing nano_double clocks publish_frame (client 0) broker).broker
handle_publish_limited_example =
    handle_publish_limited wire boxing nano_double clocks (client 0) broker publish_frame request
      parsed new (λ e. cc limited)

abbrev removal : AdminRequest
removal = record { command = AdminCommandType.delete_topic; topic = 116 ∷ []; max_messages = 0 }

delete_topic_lem_example :
    let b' = (run_command wire AdminCommandType.delete_topic removal (client 2) broker).broker in
    (lookup (116 ∷ []) b'.store.topics ≡ none)
    × (is_registered (116 ∷ []) b'.topic_manager ≡ false)
    × (get_subscribers (116 ∷ []) b'.topic_manager ≡ [])
    × (get_consumer_groups (116 ∷ []) b'.topic_manager ≡ [])
    × (lookup (117 ∷ []) b'.store.topics ≡ lookup (117 ∷ []) broker.store.topics)
    × (get_subscribers (117 ∷ []) b'.topic_manager
        ≡ get_subscribers (117 ∷ []) broker.topic_manager)
    × (get_consumer_groups (117 ∷ []) b'.topic_manager
        ≡ get_consumer_groups (117 ∷ []) broker.topic_manager)
delete_topic_lem_example = delete_topic_lem wire removal (client 2) broker refl (117 ∷ []) refl
