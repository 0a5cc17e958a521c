-- ===== src/Broker/Replies.antt =====
-- The frames that src/mq/broker.cpp sends: `SendResponse`, `SendAdminResponse`, `SendPushMessage` and
-- `SendBatchPushMessage`.
use proto_msg_queue.Prelude.{
  ℕ, Bool, Option, none, some, List, [], ◌∷◌, map, is_empty, if◌then◌else◌,
}
use proto_msg_queue.Map.{Text}
use proto_msg_queue.Protocol.Frame.{Frame, FrameMessageType, default_frame}
use proto_msg_queue.Common.ErrorCode.{ErrorCode, code_number, is_success, error_code_to_string}
use proto_msg_queue.Storage.Message.{StoredMessage}
use proto_msg_queue.Broker.{Broker, Peer, Send, to_conn, Outcome}
use proto_msg_queue.Broker.Messages.{Wire, PushMessage}

-- A frame of a type and a payload, the rest as `Frame{}` has it.
abbrev pub frame_of : FrameMessageType → List ℕ → Frame
frame_of msg_type payload = record default_frame { msg_type = msg_type; payload = payload }

module _ (wire : Wire) where
  -- `SendResponse` on a Boolean
  unfoldable pub response : Bool → Text → ℕ → Frame
  response success error_msg msg_id = frame_of FrameMessageType.response (
      wire.serialize_response (record {
        success = success;
        error_msg = error_msg;
        message_id = msg_id;
        error_code = if success then 0 else code_number ErrorCode.unknown;
      }))

  -- `SendResponse` on an error code
  unfoldable pub code_response : ErrorCode → Text → ℕ → Frame
  code_response code error_msg msg_id = frame_of FrameMessageType.response (
      wire.serialize_response (record {
        success = is_success code;
        error_msg = if is_empty error_msg then error_code_to_string code else error_msg;
        message_id = msg_id;
        error_code = code_number code;
      }))

  -- `SendAdminResponse`
  unfoldable pub admin_response : Bool → Text → Text → Frame
  admin_response success error_msg json_result = frame_of FrameMessageType.admin (
      wire.serialize_admin_response
        (record { success = success; error_msg = error_msg; json_result = json_result }))

  -- A push of one message
  unfoldable pub push_frame : PushMessage → Frame
  push_frame m = frame_of FrameMessageType.push (wire.serialize_push m)

  -- A push of several
  unfoldable pub batch_push_frame : List PushMessage → Frame
  batch_push_frame ms = frame_of FrameMessageType.batch_push (wire.serialize_batch_push ms)

-- The message that is pushed for a stored one
unfoldable pub push_of : Text → Bool → StoredMessage → PushMessage
push_of topic compressed m = record {
  message_id = m.id;
  topic = topic;
  payload = m.payload;
  timestamp = m.timestamp;
  retry_count = m.retry_count;
  compressed = compressed;
}

-- `if (conn) conn->SendFrame(...)`
unfoldable pub send_if : {W : Type 0} → Option (Peer W) → Frame → List Send
send_if none f = []
send_if (some conn) f = to_conn f ∷ []

module _ {W : Type 0} (wire : Wire) where
  -- `SendPushMessage`; `none` is the null connection.
  unfoldable pub send_push_message : Option (Peer W) → StoredMessage → Text → Bool → List Send
  send_push_message conn m topic compressed =
      send_if conn (push_frame wire (push_of topic compressed m))

  -- `SendBatchPushMessage`
  unfoldable pub send_batch_push_message :
      Option (Peer W) → List StoredMessage → Text → Bool → List Send
  send_batch_push_message conn ms topic compressed =
      send_if conn (batch_push_frame wire (map (push_of topic compressed) ms))

-- A handler that answers with one frame and changes nothing
unfoldable pub answer : {W : Type 0} → Frame → Peer W → Broker W → Outcome W
answer f conn b = record { sends = to_conn f ∷ []; peer = conn; broker = b }
