-- ===== src/Broker/Answers/Consumers.antt =====
-- The other handlers of src/mq/broker.cpp answer once.
use proto_msg_queue.Prelude.{
  if_keeps, is_empty, refl, Bool, true, false, ◌&&◌, List, [], ◌∷◌, length, All, ltb, Bool-cases,
  Option-cases, inl, inr,
}
use proto_msg_queue.Map.{Text}
use proto_msg_queue.Protocol.Frame.{Frame}
use proto_msg_queue.Common.ErrorCode.{ErrorCode}
use proto_msg_queue.Storage.Message.{StoredMessage}
use proto_msg_queue.Broker.{Broker, Peer, Readings}
use proto_msg_queue.Broker.Admin.{handle_admin, run_command, result, on_topic}
use proto_msg_queue.Broker.Consume.{
  handle_subscribe, handle_unsubscribe, handle_pull, handle_ack, verdict, push_each, push_pulled,
  subscribe_request, unsubscribe_request, pull_request, ack_request,
}
use proto_msg_queue.Broker.Messages.{Wire, PullRequest, AdminRequest, AdminCommandType}
use proto_msg_queue.Broker.Replies.{
  response, code_response, admin_response, push_frame, batch_push_frame, send_if, send_push_message,
  send_batch_push_message,
}
use proto_msg_queue.Broker.Answers.{IsAnswerFrame, IsPush, AnsweredOnce, answer_once, behind_pushes}

verdict-IsAnswerFrame :
    (wire : Wire) (success : Bool) (code : ErrorCode) (text : Text)
    → IsAnswerFrame (verdict wire success code text)
unfolding verdict code_response
verdict-IsAnswerFrame wire true code text = inl refl
verdict-IsAnswerFrame wire false code text = inl refl

module _ {W : Type 0} (wire : Wire) where
  pub handle_subscribe_once :
      (f : Frame) (conn : Peer W) (b : Broker W)
      → AnsweredOnce (handle_subscribe wire f conn b).sends
  unfolding handle_subscribe subscribe_request code_response
  handle_subscribe_once f conn b = elim (Option-cases (wire.parse_subscribe f.payload)) [
    | inl e ↦ rw (e, handle_subscribe) (answer_once _ conn b (inl refl))
    | inr (req, e) ↦
        rw (e, handle_subscribe) (answer_once _ conn _ (verdict-IsAnswerFrame wire _ _ _))
  ]

  pub handle_unsubscribe_once :
      (f : Frame) (conn : Peer W) (b : Broker W)
      → AnsweredOnce (handle_unsubscribe wire f conn b).sends
  unfolding handle_unsubscribe unsubscribe_request code_response
  handle_unsubscribe_once f conn b = elim (Option-cases (wire.parse_unsubscribe f.payload)) [
    | inl e ↦ rw (e, handle_unsubscribe) (answer_once _ conn b (inl refl))
    | inr (req, e) ↦
        rw (e, handle_unsubscribe) (answer_once _ conn _ (verdict-IsAnswerFrame wire _ _ _))
  ]

  pub handle_ack_once :
      (f : Frame) (conn : Peer W) (b : Broker W) → AnsweredOnce (handle_ack wire f conn b).sends
  unfolding handle_ack ack_request code_response
  handle_ack_once f conn b = elim (Option-cases (wire.parse_ack f.payload)) [
    | inl e ↦ rw (e, handle_ack) (answer_once _ conn b (inl refl))
    | inr (req, e) ↦ rw (e, handle_ack) (answer_once _ conn _ (verdict-IsAnswerFrame wire _ _ _))
  ]

  push_each-IsPush :
      (conn : Peer W) (topic : Text) (ms : List StoredMessage)
      → All IsPush (push_each wire conn topic ms)
  unfolding push_each send_push_message send_if push_frame
  push_each-IsPush conn topic [] = tt
  push_each-IsPush conn topic (m ∷ ms) = (inl refl, push_each-IsPush conn topic ms)

  push_pulled-IsPush :
      (batch : Bool) (conn : Peer W) (topic : Text) (ms : List StoredMessage)
      → All IsPush (push_pulled wire batch conn topic ms)
  unfolding push_pulled send_batch_push_message send_if batch_push_frame
  push_pulled-IsPush batch conn topic ms =
      if_keeps (All IsPush) (batch && ltb 1 (length ms)) _ _ (inr refl, tt)
        (push_each-IsPush conn topic ms)

  pull_request_once :
      (r : Readings) (req : PullRequest) (conn : Peer W) (b : Broker W)
      → AnsweredOnce (pull_request wire r req conn b).sends
  unfolding pull_request response
  pull_request_once r req conn b =
      behind_pushes _ _ (push_pulled-IsPush _ conn req.topic _) (inl refl)

  pub handle_pull_once :
      (r : Readings) (f : Frame) (conn : Peer W) (b : Broker W)
      → AnsweredOnce (handle_pull wire r f conn b).sends
  unfolding handle_pull code_response
  handle_pull_once r f conn b = elim (Option-cases (wire.parse_pull f.payload)) [
    | inl e ↦ rw (e, handle_pull) (answer_once _ conn b (inl refl))
    | inr (req, e) ↦ rw (e, handle_pull) (pull_request_once r req conn b)
  ]

  on_topic_once :
      (req : AdminRequest) (json : Text) (conn : Peer W) (b b' : Broker W)
      → AnsweredOnce (on_topic wire req (result wire json conn b') conn b).sends
  unfolding on_topic result admin_response
  on_topic_once req json conn b b' = elim (Bool-cases (is_empty req.topic)) [
    | inl e ↦ rw e (answer_once _ conn b (inr refl))
    | inr e ↦ rw e (answer_once _ conn b' (inr refl))
  ]

  run_command_once :
      (c : AdminCommandType) (req : AdminRequest) (conn : Peer W) (b : Broker W)
      → AnsweredOnce (run_command wire c req conn b).sends
  unfolding run_command result admin_response
  run_command_once AdminCommandType.list_topics req conn b = answer_once _ conn b (inr refl)
  run_command_once AdminCommandType.get_topic_info req conn b = on_topic_once req _ conn b b
  run_command_once AdminCommandType.delete_topic req conn b = on_topic_once req _ conn b _
  run_command_once AdminCommandType.get_stats req conn b = answer_once _ conn b (inr refl)
  run_command_once AdminCommandType.get_connections req conn b = answer_once _ conn b (inr refl)
  run_command_once AdminCommandType.cleanup_topic req conn b = on_topic_once req _ conn b _
  run_command_once _ req conn b = answer_once _ conn b (inr refl)

  pub handle_admin_once :
      (f : Frame) (conn : Peer W) (b : Broker W) → AnsweredOnce (handle_admin wire f conn b).sends
  unfolding handle_admin admin_response
  handle_admin_once f conn b = elim (Option-cases (wire.parse_admin f.payload)) [
    | inl e ↦ rw (e, handle_admin) (answer_once _ conn b (inr refl))
    | inr (req, e) ↦ rw (e, handle_admin) (run_command_once req.command req conn b)
  ]
