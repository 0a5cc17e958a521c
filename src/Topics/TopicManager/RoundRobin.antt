-- ===== src/Topics/TopicManager/RoundRobin.antt =====
-- The turns of the members of a consumer group.
use native.Mathlib.Nat.{mod-add-mod, mod-eq_of_lt, mod-lt, mod-mod}
use proto_msg_queue.Prelude.{
  ℕ, zero, suc, ◌+◌, ◌%◌, ◌^◌, ◌<◌, ◌≡◌, refl, sym, ap, ◌∙◌, [], length, get_or, arith,
}
use proto_msg_queue.Topics.Topic.{ConsumerGroupMember, ConsumerGroup}
use proto_msg_queue.Topics.TopicManager.{next_member}

-- The group after `k` turns.
unfoldable pub turns : ℕ → ConsumerGroup → ConsumerGroup
turns zero g = g
turns (suc k) g = turns k (next_member g).1

turns_members : (k : ℕ) (g : ConsumerGroup) → (turns k g).members ≡ g.members
unfolding turns next_member
turns_members zero g = refl
turns_members (suc k) g = turns_members k (next_member g).1

turns_index :
    (k : ℕ) (g : ConsumerGroup)
    → 0 < length g.members
    → length g.members < 2 ^ 64
    → g.round_robin_index < length g.members
    → (turns k g).round_robin_index ≡ (g.round_robin_index + k) % length g.members
unfolding turns next_member
turns_index zero g room small bound =
    sym (ap (λ i. i % length g.members) (omega arith) ∙ mod-eq_of_lt bound)
turns_index (suc k) g room small bound =
    let next : ConsumerGroup = (next_member g).1 in
    let n : ℕ = length g.members in
    let moved : next.round_robin_index ≡ (g.round_robin_index + 1) % n =
      ap (λ i. i % n) (mod-eq_of_lt {n = g.round_robin_index + 1} {m = 2 ^ 64} (omega arith)) in
    turns_index k next room small (mod-lt ((g.round_robin_index + 1) % 2 ^ 64) room)
    ∙ ap (λ i. (i + k) % n) moved
    ∙ mod-add-mod (g.round_robin_index + 1) n k
    ∙ ap (λ i. i % n) (omega arith)

-- Turn `k` of a group that has members, fewer than 2 ^ 64, and an index among them falls to the member
-- `k` places behind the index, counted round.
pub next_member-turns :
    (k : ℕ) (g : ConsumerGroup)
    → 0 < length g.members
    → length g.members < 2 ^ 64
    → g.round_robin_index < length g.members
    → (next_member (turns k g)).0
      ≡ (get_or g.members
          ((g.round_robin_index + k) % length g.members)
          (record { subscriber_id = []; conn_id = 0 })).subscriber_id
unfolding next_member
next_member-turns k g room small bound =
    ap (λ l. (get_or l ((turns k g).round_robin_index % length l) nobody).subscriber_id)
      (turns_members k g)
    ∙ ap (λ i. (get_or g.members (i % length g.members) nobody).subscriber_id)
        (turns_index k g room small bound)
    ∙ ap (λ i. (get_or g.members i nobody).subscriber_id)
        (mod-mod (g.round_robin_index + k) (length g.members))
  where
    nobody : ConsumerGroupMember
    nobody = record { subscriber_id = []; conn_id = 0 }
