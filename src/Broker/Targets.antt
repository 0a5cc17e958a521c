-- ===== src/Broker/Targets.antt =====
-- To whom src/mq/broker.cpp pushes what was published: each broadcast subscriber, and one member of
-- each consumer group.
use proto_msg_queue.Prelude.{ℕ, suc, List, [], ◌∷◌, ◌++◌, map, is_empty, ◌==◌, if◌then◌else◌}
use proto_msg_queue.Map.{Text, text_beq}
use proto_msg_queue.Protocol.Frame.{Frame}
use proto_msg_queue.Topics.Topic.{SubscriberInfo, ConsumerGroupMember, ConsumerGroup}
use proto_msg_queue.Topics.TopicManager.{
  TopicManager, get_subscribers, get_consumer_groups, select_next_member,
}
use proto_msg_queue.Broker.{Send, to_id}

-- The connection of the first member of that name; zero stands for none.
unfoldable pub member_conn : Text → List ConsumerGroupMember → ℕ
member_conn id [] = 0
member_conn id (m ∷ members) =
    if text_beq m.subscriber_id id then m.conn_id else member_conn id members

-- `target_conn_id` for one group, with the turn that the group then has taken.
unfoldable pub group_target : Text → ConsumerGroup → TopicManager → ℕ × TopicManager
group_target topic g t =
    if is_empty g.members
    then (0, t)
    else let (selected, t') = select_next_member topic g.group_id t in
      (if is_empty selected then 0 else member_conn selected g.members, t')

unfoldable pub send_unless_zero : ℕ → Frame → List Send
send_unless_zero target f = if target == 0 then [] else to_id target f ∷ []

-- The loop over the groups; `frame n` is sent to the group in place `n`.
unfoldable pub push_groups :
    (ℕ → Frame) → Text → ℕ → List ConsumerGroup → TopicManager → List Send × TopicManager
push_groups frame topic i [] t = ([], t)
push_groups frame topic i (g ∷ groups) t =
    let (target, t') = group_target topic g t in
    let (rest, t'') = push_groups frame topic (suc i) groups t' in
    (send_unless_zero target (frame i) ++ rest, t'')

-- The loop over the broadcast subscribers
unfoldable pub push_subscribers : Frame → List SubscriberInfo → List Send
push_subscribers f subs = map (λ s. to_id s.conn_id f) subs

-- Both loops for one topic; the groups are those at the start.
unfoldable pub push_topic : Frame → (ℕ → Frame) → Text → TopicManager → List Send × TopicManager
push_topic f frame topic t =
    let (group_sends, t') = push_groups frame topic 0 (get_consumer_groups topic t) t in
    (push_subscribers f (get_subscribers topic t) ++ group_sends, t')
