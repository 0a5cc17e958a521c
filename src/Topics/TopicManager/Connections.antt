-- ===== src/Topics/TopicManager/Connections.antt =====
-- What is left of a connection's subscriptions when it is gone.
use proto_msg_queue.Prelude.{
  ℕ, ◌≡◌, false, not, List, [], ◌∷◌, All, ◌==◌, filter, is_empty, Bool-cases, inl, inr,
}
use proto_msg_queue.Map.{Text}
use proto_msg_queue.Topics.Topic.{SubscriberInfo, Groups}
use proto_msg_queue.Topics.TopicManager.{TopicManager}
use proto_msg_queue.Topics.TopicManager.Departures.{
  drop_subscribers, drop_members, drop_groups, unsubscribe_by_conn_id,
}

abbrev pub IsOther : ℕ → ℕ → Type 0
IsOther conn_id c = (c == conn_id) ≡ false

-- No list is empty, and none has the connection.
unfoldable pub IsFreeSubs : ℕ → List (Text × List SubscriberInfo) → Type 0
IsFreeSubs conn_id subs =
    All (λ e. (is_empty e.1 ≡ false) × All (λ s. IsOther conn_id s.conn_id) e.1) subs

unfoldable pub IsFreeGroups : ℕ → Groups → Type 0
IsFreeGroups conn_id groups =
    All (λ e. (is_empty e.1.members ≡ false) × All (λ m. IsOther conn_id m.conn_id) e.1.members)
      groups

filter-IsOther {ℓ} :
    {A : Type ℓ} (conn : A → ℕ) (conn_id : ℕ) (l : List A)
    → All (λ s. IsOther conn_id (conn s)) (filter (λ s. not (conn s == conn_id)) l)
unfolding filter
filter-IsOther conn conn_id [] = tt
filter-IsOther conn conn_id (s ∷ l) =
    let rest = filter-IsOther conn conn_id l in
    elim (Bool-cases (conn s == conn_id)) [ inl e ↦ rw (e) rest | inr e ↦ rw (e) (e, rest) ]

drop_subscribers-IsFreeSubs :
    (conn_id : ℕ) (subs : List (Text × List SubscriberInfo))
    → IsFreeSubs conn_id (drop_subscribers conn_id subs).1
unfolding drop_subscribers IsFreeSubs
drop_subscribers-IsFreeSubs conn_id [] = tt
drop_subscribers-IsFreeSubs conn_id ((name, subs) ∷ rest) =
    let kept = drop_subscribers-IsFreeSubs conn_id rest in
    elim (Bool-cases (is_empty (filter (λ s. not (s.conn_id == conn_id)) subs))) [
      | inl e ↦ rw (e) kept
      | inr e ↦ rw (e) ((e, filter-IsOther (λ s. s.conn_id) conn_id subs), kept)
    ]

drop_members-IsFreeGroups :
    (conn_id : ℕ) (groups : Groups) → IsFreeGroups conn_id (drop_members conn_id groups).1
unfolding drop_members IsFreeGroups
drop_members-IsFreeGroups conn_id [] = tt
drop_members-IsFreeGroups conn_id ((group_id, g) ∷ rest) =
    let kept = drop_members-IsFreeGroups conn_id rest in
    elim (Bool-cases (is_empty (filter (λ m. not (m.conn_id == conn_id)) g.members))) [
      | inl e ↦ rw (e) kept
      | inr e ↦ rw (e) ((e, filter-IsOther (λ m. m.conn_id) conn_id g.members), kept)
    ]

-- No topic is left without a group.
unfoldable pub IsFreeTopics : ℕ → List (Text × Groups) → Type 0
IsFreeTopics conn_id topics = All (λ e. (is_empty e.1 ≡ false) × IsFreeGroups conn_id e.1) topics

drop_groups-IsFreeTopics :
    (conn_id : ℕ) (topics : List (Text × Groups))
    → IsFreeTopics conn_id (drop_groups conn_id topics).1
unfolding drop_groups IsFreeTopics
drop_groups-IsFreeTopics conn_id [] = tt
drop_groups-IsFreeTopics conn_id ((name, groups) ∷ rest) =
    let kept = drop_groups-IsFreeTopics conn_id rest in
    elim (Bool-cases (is_empty (drop_members conn_id groups).1)) [
      | inl e ↦ rw (e) kept
      | inr e ↦ rw (e) ((e, drop_members-IsFreeGroups conn_id groups), kept)
    ]

-- After `UnsubscribeByConnId` no broadcast subscriber and no member of a group has the connection, and
-- no empty list, group or map of groups is left.
pub unsubscribe_by_conn_id_lem :
    (conn_id : ℕ) (t : TopicManager)
    → (let t' = (unsubscribe_by_conn_id conn_id t).1 in
        IsFreeSubs conn_id t'.subscribers × IsFreeTopics conn_id t'.consumer_groups)
unfolding unsubscribe_by_conn_id
unsubscribe_by_conn_id_lem conn_id t = (
  drop_subscribers-IsFreeSubs conn_id t.subscribers,
  drop_groups-IsFreeTopics conn_id t.consumer_groups,
)
