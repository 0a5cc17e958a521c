-- ===== src/Topics/TopicManager/Gone.antt =====
-- A connection with no subscription stays without one until it subscribes itself: the operations of
-- src/mq/topic_manager.cpp.
use proto_msg_queue.Prelude.{
  if_keeps, option_keeps, ℕ, Bool, false, not, List, [], ◌∷◌, All, All-append, All-weaken, filter,
  is_some, is_empty, subst, sym, Bool-cases, Option-cases, inl, inr,
}
use proto_msg_queue.Map.{Text, text_beq, text_eq, lookup, insert, All-insert, All-erase, All-lookup}
use proto_msg_queue.Topics.Topic.{SubscriberInfo, ConsumerGroup, Groups}
use proto_msg_queue.Topics.TopicManager.{
  TopicManager, list_of, ensure_topic, join, is_member, has_member, has_subscriber, subscribe,
  keep_group, leave, unsubscribe, unregister_topic, next_member, select_next_member,
}
use proto_msg_queue.Topics.TopicManager.Connections.{
  IsOther, IsFreeSubs, IsFreeGroups, IsFreeTopics, unsubscribe_by_conn_id_lem,
}
use proto_msg_queue.Topics.TopicManager.Departures.{unsubscribe_by_conn_id}

-- None of the subscribers, and none of the members of a group, has the connection.
abbrev pub NoneOf : ℕ → List SubscriberInfo → Type 0
NoneOf c subs = All (λ s. IsOther c s.conn_id) subs

abbrev pub NoMember : ℕ → ConsumerGroup → Type 0
NoMember c g = All (λ m. IsOther c m.conn_id) g.members

abbrev pub NoneIn : ℕ → Groups → Type 0
NoneIn c groups = All (λ e. NoMember c e.1) groups

-- The connection is subscribed to nothing.
pub record IsGone (c : ℕ) (t : TopicManager) : Type 0 where
  pub no_subscriber : All (λ e. NoneOf c e.1) t.subscribers
  pub no_member : All (λ e. NoneIn c e.1) t.consumer_groups

pub All-filter {ℓ κ} :
    {A : Type ℓ} (P : A → Type κ) (f : A → Bool) (l : List A) → All P l → All P (filter f l)
unfolding filter
All-filter P f [] h = tt
All-filter P f (x ∷ l) h = elim (Bool-cases (f x)) [
  | inl e ↦ rw e (h.0, All-filter P f l h.1)
  | inr e ↦ rw e (All-filter P f l h.1)
]

pub unsubscribe_by_conn_id-IsGone :
    (c : ℕ) (t : TopicManager) → IsGone c (unsubscribe_by_conn_id c t).1
unfolding IsFreeSubs IsFreeTopics IsFreeGroups
unsubscribe_by_conn_id-IsGone c t =
    let (subs, groups) = unsubscribe_by_conn_id_lem c t in
    record {
      no_subscriber = All-weaken _ _ _ (λ e h. h.1) subs;
      no_member = All-weaken _ _ _ (λ e h. All-weaken _ _ _ (λ g k. k.1) h.1) groups;
    }

module _ (c : ℕ) (name : Text) (t : TopicManager) (gone : IsGone c t) where
  -- What the manager has for a topic, a new list where it has none.
  pub subscribers_gone : NoneOf c (list_of (lookup name t.subscribers))
  unfolding list_of
  subscribers_gone = elim (Option-cases (lookup name t.subscribers)) [
    | inl e ↦ rw e tt
    | inr (subs, e) ↦ rw e (All-lookup (NoneOf c) name subs t.subscribers gone.no_subscriber e)
  ]

  pub groups_gone : NoneIn c (list_of (lookup name t.consumer_groups))
  unfolding list_of
  groups_gone = elim (Option-cases (lookup name t.consumer_groups)) [
    | inl e ↦ rw e tt
    | inr (gs, e) ↦ rw e (All-lookup (NoneIn c) name gs t.consumer_groups gone.no_member e)
  ]

  put_subscribers :
      (subs : List SubscriberInfo)
      → NoneOf c subs
      → IsGone c (record t { subscribers = insert name subs t.subscribers })
  put_subscribers subs h = record {
    no_subscriber = All-insert (NoneOf c) name subs t.subscribers h gone.no_subscriber;
    no_member = gone.no_member;
  }

  put_groups :
      (gs : Groups)
      → NoneIn c gs
      → IsGone c (record t { consumer_groups = insert name gs t.consumer_groups })
  put_groups gs h = record {
    no_subscriber = gone.no_subscriber;
    no_member = All-insert (NoneIn c) name gs t.consumer_groups h gone.no_member;
  }

  ensure_topic-IsGone : IsGone c (ensure_topic name t)
  unfolding ensure_topic
  ensure_topic-IsGone =
      if_keeps (IsGone c) (is_some (lookup name t.topics)) _ _ gone
        (record { no_subscriber = gone.no_subscriber; no_member = gone.no_member })

  pub unregister_topic-IsGone : IsGone c (unregister_topic name t).1
  unfolding unregister_topic
  unregister_topic-IsGone = record {
    no_subscriber = All-erase (NoneOf c) name t.subscribers gone.no_subscriber;
    no_member = All-erase (NoneIn c) name t.consumer_groups gone.no_member;
  }

join-NoMember :
    (c : ℕ) (name group_id : Text) (s : SubscriberInfo) (groups : Groups)
    → IsOther c s.conn_id
    → NoneIn c groups
    → NoMember c (join name group_id s (lookup group_id groups))
unfolding join
join-NoMember c name group_id s groups other h = elim (Option-cases (lookup group_id groups)) [
  | inl e ↦ rw e (other, tt)
  | inr (g, e) ↦ rw e (
      All-append (λ m. IsOther c m.conn_id) g.members _
        (All-lookup (NoMember c) group_id g groups h e) (other, tt))
]

pub subscribe-IsGone :
    (c : ℕ) (name : Text) (s : SubscriberInfo) (group_id : Text) (t : TopicManager)
    → IsOther c s.conn_id
    → IsGone c t
    → IsGone c (subscribe name s group_id t).1
unfolding subscribe
subscribe-IsGone c name s group_id t0 other gone0 =
    let t = ensure_topic name t0 in
    let gone = ensure_topic-IsGone c name t0 gone0 in
    let subs = list_of (lookup name t.subscribers) in
    let groups = list_of (lookup name t.consumer_groups) in
    let old_subs = subscribers_gone c name t gone in
    let old_groups = groups_gone c name t gone in
    let P = λ (o : Bool × TopicManager). IsGone c o.1 in
    if_keeps P (is_empty group_id) _ _
      (if_keeps P (has_subscriber s.id subs) _ _ (put_subscribers c name t gone subs old_subs) (
        put_subscribers c name t gone _
          (All-append (λ x. IsOther c x.conn_id) subs _ old_subs (other, tt))))
      (if_keeps P (is_member s.id (lookup group_id groups)) _ _
        (put_groups c name t gone groups old_groups)
        (put_groups c name t gone _ (
          All-insert (NoMember c) group_id _ groups
            (join-NoMember c name group_id s groups other old_groups) old_groups)))

leave-IsGone :
    (c : ℕ) (name id group_id : Text) (t : TopicManager) (groups : Groups)
    → IsGone c t
    → NoneIn c groups
    → IsGone c (leave name id group_id groups (lookup group_id groups) t).1
unfolding leave keep_group
leave-IsGone c name id group_id t groups gone h = elim (Option-cases (lookup group_id groups)) [
  | inl e ↦ rw (e) gone
  | inr (g, e) ↦
      let left = filter (λ m. not (text_beq m.subscriber_id id)) g.members in
      let kept : NoMember c (record g { members = left }) =
        All-filter (λ m. IsOther c m.conn_id) (λ m. not (text_beq m.subscriber_id id)) g.members
          (All-lookup (NoMember c) group_id g groups h e) in
      subst (λ o. IsGone c (leave name id group_id groups o t).1) (sym e)
        (if_keeps (λ (o : Bool × TopicManager). IsGone c o.1) (has_member id g.members) _ _
          (put_groups c name t gone _ (
            if_keeps (NoneIn c) (is_empty left) _ _ (All-erase (NoMember c) group_id groups h)
              (All-insert (NoMember c) group_id _ groups kept h)))
          gone)
]

pub unsubscribe-IsGone :
    (c : ℕ) (name id group_id : Text) (t : TopicManager)
    → IsGone c t
    → IsGone c (unsubscribe name id group_id t).1
unfolding unsubscribe
unsubscribe-IsGone c name id group_id t gone =
    let P = λ (o : Bool × TopicManager). IsGone c o.1 in
    if_keeps P (is_empty group_id) _ _
      (option_keeps P (lookup name t.subscribers) (false, t) _ gone
        λ subs e.
          if_keeps P (has_subscriber id subs) _ _
            (put_subscribers c name t gone _ (
              All-filter (λ s. IsOther c s.conn_id) (λ s. not (text_beq s.id id)) subs
                (All-lookup (NoneOf c) name subs t.subscribers gone.no_subscriber e)))
            gone)
      (option_keeps P (lookup name t.consumer_groups) (false, t) _ gone
        λ groups e.
          leave-IsGone c name id group_id t groups gone
            (All-lookup (NoneIn c) name groups t.consumer_groups gone.no_member e))

pub select_next_member-IsGone :
    (c : ℕ) (name group_id : Text) (t : TopicManager)
    → IsGone c t
    → IsGone c (select_next_member name group_id t).1
unfolding select_next_member next_member
select_next_member-IsGone c name group_id t gone =
    let groups = list_of (lookup name t.consumer_groups) in
    let old = groups_gone c name t gone in
    elim (Option-cases (lookup group_id groups)) [
      | inl e ↦ rw (e, select_next_member) gone
      | inr (g, e) ↦
          rw (e, select_next_member)
            (if_keeps (λ (o : Text × TopicManager). IsGone c o.1) (is_empty g.members) _ _ gone
              (put_groups c name t gone _ (
                All-insert (NoMember c) group_id _ groups
                  (All-lookup (NoMember c) group_id g groups old e) old)))
    ]
