-- ===== src/Broker/Answers.antt =====
-- What src/mq/broker.cpp sends for a frame: pushes, and behind them one answer.
pub mod Producers
pub mod Consumers
pub mod Dispatched
use proto_msg_queue.Prelude.{
  is_empty, ℕ, suc, ◌≡◌, ◌≢◌, ◌⊎◌, refl, sym, subst, ◌∙◌, append_assoc, Bool, true, false, ◌&&◌,
  Option, none, some, List, [], ◌∷◌, ◌++◌, length, All, not, All-append, map, ltb, leb, ◌==◌,
  if◌then◌else◌, Bool-cases, Option-cases, inl, inr,
}
use proto_msg_queue.Map.{Text}
use proto_msg_queue.Protocol.Frame.{Frame, FrameMessageType}
use proto_msg_queue.Common.Compression.{Zlib}
use proto_msg_queue.Common.DedupWindow.{is_duplicate}
use proto_msg_queue.Common.ErrorCode.{ErrorCode}
use proto_msg_queue.Common.RateLimiter.{Double}
use proto_msg_queue.Storage.Message.{StoredMessage}
use proto_msg_queue.Storage.Store.{publish}
use proto_msg_queue.Storage.Store
use proto_msg_queue.Topics.Topic.{SubscriberInfo, ConsumerGroup}
use proto_msg_queue.Topics.TopicManager.{TopicManager, get_subscribers, get_consumer_groups}
use proto_msg_queue.Broker.{Broker, Peer, Send, to_conn, to_id, Outcome, Readings}
use proto_msg_queue.Broker.Admin.{handle_admin, run_command, result, on_topic}
use proto_msg_queue.Broker.BatchPublish.{
  handle_batch_publish, batch_if_permitted, store_batch, publish_all, by_topic, push_topics,
  topic_frame, last_id,
}
use proto_msg_queue.Broker.Consume.{
  handle_subscribe, handle_unsubscribe, handle_pull, handle_ack, verdict, push_each,
  subscribe_request, unsubscribe_request, pull_request, ack_request, consumer_of,
}
use proto_msg_queue.Broker.Dispatch.{handle_type, on_frame_received}
use proto_msg_queue.Broker.Messages.{
  Wire, PublishRequest, PullRequest, AdminRequest, AdminCommandType,
}
use proto_msg_queue.Broker.Permits.{
  Permit, granted, conn_limited, globally_limited, acquire_permits,
}
use proto_msg_queue.Broker.Publish.{
  handle_publish, publish_request, if_permitted, store_and_announce, announce, is_tracked,
  compress_payload, ttl_of,
}
use proto_msg_queue.Broker.Replies.{
  response, code_response, admin_response, push_frame, batch_push_frame, answer, send_if,
  send_push_message, send_batch_push_message,
}
use proto_msg_queue.Broker.Targets.{
  push_topic, push_groups, push_subscribers, send_unless_zero, group_target,
}

-- A frame that carries messages to a subscriber, and one that answers a request.
abbrev pub IsPushFrame : Frame → Type 0
IsPushFrame f = (f.msg_type ≡ FrameMessageType.push) ⊎ (f.msg_type ≡ FrameMessageType.batch_push)

abbrev pub IsAnswerFrame : Frame → Type 0
IsAnswerFrame f = (f.msg_type ≡ FrameMessageType.response) ⊎ (f.msg_type ≡ FrameMessageType.admin)

abbrev pub sent_frame : Send → Frame
sent_frame (to_conn f) = f
sent_frame (to_id n f) = f

abbrev pub IsPush : Send → Type 0
IsPush s = IsPushFrame (sent_frame s)

-- Pushes, and behind them one answer to the connection that asked.
abbrev pub AnsweredOnce : List Send → Type 0
AnsweredOnce sends =
    (pushes : List Send) × (f : Frame) × (sends ≡ pushes ++ to_conn f ∷ [])
    × All IsPush pushes
    × IsAnswerFrame f

module _ {W : Type 0} (f : Frame) (conn : Peer W) (b : Broker W) where
  pub answer_once : IsAnswerFrame f → AnsweredOnce (answer f conn b).sends
  unfolding answer
  answer_once h = ([], f, refl, tt, h)

pub behind_pushes :
    (pushes : List Send) (f : Frame)
    → All IsPush pushes
    → IsAnswerFrame f
    → AnsweredOnce (pushes ++ to_conn f ∷ [])
behind_pushes pushes f h a = (pushes, f, refl, h, a)

module _ (frame : ℕ → Frame) (topic : Text) (pushed : (n : ℕ) → IsPushFrame (frame n)) where
  push_groups-IsPush :
      (i : ℕ) (groups : List ConsumerGroup) (t : TopicManager)
      → All IsPush (push_groups frame topic i groups t).0
  unfolding push_groups send_unless_zero
  push_groups-IsPush i [] t = tt
  push_groups-IsPush i (g ∷ groups) t =
      let rest = push_groups-IsPush (suc i) groups (group_target topic g t).1 in
      elim (Bool-cases ((group_target topic g t).0 == 0)) [
        | inl e ↦ rw e rest
        | inr e ↦ rw e (pushed i, rest)
      ]

push_subscribers-IsPush :
    (f : Frame)
    → IsPushFrame f
    → (subs : List SubscriberInfo) → All IsPush (push_subscribers f subs)
unfolding push_subscribers
push_subscribers-IsPush f p [] = tt
push_subscribers-IsPush f p (s ∷ subs) = (p, push_subscribers-IsPush f p subs)

pub push_topic-IsPush :
    (f : Frame) (frame : ℕ → Frame) (topic : Text) (t : TopicManager)
    → IsPushFrame f
    → ((n : ℕ) → IsPushFrame (frame n))
    → All IsPush (push_topic f frame topic t).0
unfolding push_topic
push_topic-IsPush f frame topic t p q =
    All-append IsPush (push_subscribers f (get_subscribers topic t)) _
      (push_subscribers-IsPush f p (get_subscribers topic t))
      (push_groups-IsPush frame topic q 0 (get_consumer_groups topic t) t)

topic_frame-IsPushFrame :
    (wire : Wire) (batch : Bool) (topic : Text) (ms : List StoredMessage)
    → IsPushFrame (topic_frame wire batch topic ms)
unfolding topic_frame push_frame batch_push_frame
topic_frame-IsPushFrame wire batch topic ms = elim (Bool-cases (batch && ltb 1 (length ms))) [
  | inl e ↦ rw e (inr refl)
  | inr e ↦ rw e (inl refl)
]

pub push_topics-IsPush :
    (wire : Wire) (batch : Bool) (topics : List (Text × List StoredMessage)) (t : TopicManager)
    → All IsPush (push_topics wire batch topics t).0
unfolding push_topics
push_topics-IsPush wire batch [] t = tt
push_topics-IsPush wire batch ((topic, ms) ∷ rest) t =
    let frame = topic_frame wire batch topic ms in
    let p = topic_frame-IsPushFrame wire batch topic ms in
    All-append IsPush (push_topic frame (λ _. frame) topic t).0 _
      (push_topic-IsPush frame (λ _. frame) topic t p (λ _. p))
      (push_topics-IsPush wire batch rest (push_topic frame (λ _. frame) topic t).1)
