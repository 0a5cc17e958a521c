-- ===== src/Broker/Consume.antt =====
-- The handlers of src/mq/broker.cpp for consumers: `HandleSubscribe`, `HandleUnsubscribe`,
-- `HandlePull`, `HandleAck`, and `HandlePing` and `OnConnectionClosed`.
use proto_msg_queue.Prelude.{
  ℕ, Bool, true, false, not, ◌&&◌, none, some, List, [], ◌∷◌, ◌++◌, length, is_empty, ltb,
  if◌then◌else◌,
}
use proto_msg_queue.Map.{Text, codes}
use proto_msg_queue.Protocol.Frame.{Frame, FrameMessageType}
use proto_msg_queue.Common.ErrorCode.{ErrorCode}
use proto_msg_queue.Storage.Message.{StoredMessage}
use proto_msg_queue.Storage.Store
use proto_msg_queue.Storage.Store.{create_topic}
use proto_msg_queue.Topics.TopicManager
use proto_msg_queue.Topics.Topic.{SubscriberInfo}
use proto_msg_queue.Topics.TopicManager.Departures.{unsubscribe_by_conn_id}
use proto_msg_queue.Broker.{Broker, Peer, Send, to_conn, Outcome, Readings}
use proto_msg_queue.Broker.BatchPublish.{last_id}
use proto_msg_queue.Broker.Messages.{
  Wire, SubscribeRequest, UnsubscribeRequest, PullRequest, AckRequest,
}
use proto_msg_queue.Broker.Replies.{
  frame_of, response, code_response, send_push_message, send_batch_push_message, answer,
}

-- `success ? ErrorCode::Success : code, success ? "" : text`
unfoldable pub verdict : Wire → Bool → ErrorCode → Text → Frame
verdict wire success code text =
    if success then code_response wire ErrorCode.success [] 0 else code_response wire code text 0

-- `is_group ? req.group_id() : req.subscriber_id()`
unfoldable pub consumer_of : Text → Text → Text
consumer_of group_id subscriber_id = if is_empty group_id then subscriber_id else group_id

unfoldable pub info_of : Text → ℕ → SubscriberInfo
info_of subscriber_id conn_id = record { id = subscriber_id; conn_id = conn_id }

module _ {W : Type 0} (wire : Wire) where
  -- `HandleSubscribe` on a request that was parsed
  unfoldable pub subscribe_request : SubscribeRequest → Peer W → Broker W → Outcome W
  subscribe_request req conn b =
      let info = info_of req.subscriber_id conn.id in
      let (success, t) = TopicManager.subscribe req.topic info req.group_id b.topic_manager in
      answer (verdict wire success ErrorCode.already_subscribed (codes "Already subscribed")) conn
        (record b {
          topic_manager = t;
          store = if success then (create_topic req.topic b.store).1 else b.store;
        })

  -- `HandleUnsubscribe` on a request that was parsed
  unfoldable pub unsubscribe_request : UnsubscribeRequest → Peer W → Broker W → Outcome W
  unsubscribe_request req conn b =
      let (success, t) =
        TopicManager.unsubscribe req.topic req.subscriber_id req.group_id b.topic_manager in
      answer (verdict wire success ErrorCode.not_subscribed (codes "Not subscribed")) conn
        (record b { topic_manager = t })

  -- `SendPushMessage` for each message
  unfoldable pub push_each : Peer W → Text → List StoredMessage → List Send
  push_each conn topic [] = []
  push_each conn topic (m ∷ ms) =
      send_push_message wire (some conn) m topic false ++ push_each conn topic ms

  -- The pushes of `HandlePull`: one for all messages, or one for each.
  unfoldable pub push_pulled : Bool → Peer W → Text → List StoredMessage → List Send
  push_pulled batch_push conn topic messages =
      if batch_push && ltb 1 (length messages)
      then send_batch_push_message wire (some conn) messages topic false
      else push_each conn topic messages

  -- `HandlePull` on a request that was parsed
  unfoldable pub pull_request : Readings → PullRequest → Peer W → Broker W → Outcome W
  pull_request r req conn b =
      let is_group = not (is_empty req.group_id) in
      let consumer_id = consumer_of req.group_id req.subscriber_id in
      let (messages, store) =
        Store.pull req.topic consumer_id req.max_messages is_group r.pull_now r.pull_clock
          b.store in
      record {
        sends =
            push_pulled b.config_manager.global_config.batch_push_enabled conn req.topic messages
            ++ to_conn (response wire true [] (last_id messages)) ∷ [];
        peer = conn;
        broker = record b { store = store };
      }

  -- `HandleAck` on a request that was parsed
  unfoldable pub ack_request : AckRequest → Peer W → Broker W → Outcome W
  ack_request req conn b =
      let is_group = not (is_empty req.group_id) in
      let consumer_id = consumer_of req.group_id req.subscriber_id in
      let (success, store) = Store.ack req.topic consumer_id req.message_id is_group b.store in
      answer (verdict wire success ErrorCode.message_not_found (codes "Message not found")) conn
        (record b { store = store })

  -- `HandleSubscribe`
  unfoldable pub handle_subscribe : Frame → Peer W → Broker W → Outcome W
  handle_subscribe f conn b = elim (wire.parse_subscribe f.payload) [
    | none ↦
        answer
          (code_response wire ErrorCode.invalid_request (codes "Failed to parse subscribe request")
            0)
          conn b
    | some req ↦ subscribe_request req conn b
  ]

  -- `HandleUnsubscribe`
  unfoldable pub handle_unsubscribe : Frame → Peer W → Broker W → Outcome W
  handle_unsubscribe f conn b = elim (wire.parse_unsubscribe f.payload) [
    | none ↦
        answer
          (code_response wire ErrorCode.invalid_request
            (codes "Failed to parse unsubscribe request") 0)
          conn b
    | some req ↦ unsubscribe_request req conn b
  ]

  -- `HandlePull`
  unfoldable pub handle_pull : Readings → Frame → Peer W → Broker W → Outcome W
  handle_pull r f conn b = elim (wire.parse_pull f.payload) [
    | none ↦
        answer
          (code_response wire ErrorCode.invalid_request (codes "Failed to parse pull request") 0)
          conn b
    | some req ↦ pull_request r req conn b
  ]

  -- `HandleAck`
  unfoldable pub handle_ack : Frame → Peer W → Broker W → Outcome W
  handle_ack f conn b = elim (wire.parse_ack f.payload) [
    | none ↦
        answer
          (code_response wire ErrorCode.invalid_request (codes "Failed to parse ack request") 0)
          conn b
    | some req ↦ ack_request req conn b
  ]

-- `HandlePing`
unfoldable pub handle_ping : {W : Type 0} → Peer W → Broker W → Outcome W
handle_ping conn b = answer (frame_of FrameMessageType.pong []) conn b

-- `OnConnectionClosed`
unfoldable pub on_connection_closed : {W : Type 0} → ℕ → Broker W → Broker W
on_connection_closed conn_id b = record b {
  topic_manager = (unsubscribe_by_conn_id conn_id b.topic_manager).1;
}
