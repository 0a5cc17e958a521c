-- ===== src/Broker/Messages.antt =====
-- The messages of src/proto/msg_queue.proto that the broker reads or writes. The code that protoc
-- makes of them is a parameter: a parser for each request, a serialiser for each answer.
use proto_msg_queue.Prelude.{ℕ, Bool, Option, List}
use proto_msg_queue.Map.{Text}

-- `message PublishRequest`
pub record PublishRequest : Type 0 where
  pub topic : Text
  pub payload : List ℕ
  pub ttl_ms : ℕ
  pub compressed : Bool
  pub producer_id : Text
  pub sequence_id : ℕ

-- `message SubscribeRequest`
pub record SubscribeRequest : Type 0 where
  pub topic : Text
  pub subscriber_id : Text
  pub group_id : Text

-- `message UnsubscribeRequest`
pub record UnsubscribeRequest : Type 0 where
  pub topic : Text
  pub subscriber_id : Text
  pub group_id : Text

-- `message PullRequest`
pub record PullRequest : Type 0 where
  pub topic : Text
  pub subscriber_id : Text
  pub group_id : Text
  pub max_messages : ℕ

-- `message AckRequest`
pub record AckRequest : Type 0 where
  pub topic : Text
  pub subscriber_id : Text
  pub group_id : Text
  pub message_id : ℕ

-- `message Response`
pub record Response : Type 0 where
  pub success : Bool
  pub error_msg : Text
  pub message_id : ℕ
  pub error_code : ℕ

-- `message PushMessage`
pub record PushMessage : Type 0 where
  pub message_id : ℕ
  pub topic : Text
  pub payload : List ℕ
  pub timestamp : ℕ
  pub retry_count : ℕ
  pub compressed : Bool

-- `enum AdminCommandType`; the last stands for the numbers with no name.
pub data AdminCommandType : Type 0 where
  admin_unknown list_topics get_topic_info delete_topic : AdminCommandType
  get_stats get_connections cleanup_topic : AdminCommandType
  unnamed : ℕ → AdminCommandType

-- `message AdminRequest`
pub record AdminRequest : Type 0 where
  pub command : AdminCommandType
  pub topic : Text
  pub max_messages : ℕ

-- `message AdminResponse`
pub record AdminResponse : Type 0 where
  pub success : Bool
  pub error_msg : Text
  pub json_result : Text

-- `ParseFromArray` of the requests, `none` for false, and `SerializeToString` of the answers. A
-- `BatchPublishRequest` and a `BatchPushMessage` are the lists that they hold.
pub record Wire : Type 0 where
  pub parse_publish : List ℕ → Option PublishRequest
  pub parse_batch_publish : List ℕ → Option (List PublishRequest)
  pub parse_subscribe : List ℕ → Option SubscribeRequest
  pub parse_unsubscribe : List ℕ → Option UnsubscribeRequest
  pub parse_pull : List ℕ → Option PullRequest
  pub parse_ack : List ℕ → Option AckRequest
  pub parse_admin : List ℕ → Option AdminRequest
  pub serialize_response : Response → List ℕ
  pub serialize_push : PushMessage → List ℕ
  pub serialize_batch_push : List PushMessage → List ℕ
  pub serialize_admin_response : AdminResponse → List ℕ
