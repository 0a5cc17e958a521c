-- ===== src/Storage/DeadLetters.antt =====
-- The dead letter queue of src/storage/memory_message_store.cpp gives out each message once.
use proto_msg_queue.Prelude.{
  ℕ, ◌≡◌, ◌∙◌, some, List, ◌++◌, length, drop, arith, min, length-take, take-append-drop,
}
use proto_msg_queue.Map.{Text, text_eq, lookup, lookup-insert_self}
use proto_msg_queue.Storage.Message.{StoredMessage}
use proto_msg_queue.Storage.Store.{MemoryMessageStore, make_dlq_name, pull_dlq}

-- Where the topic has a dead letter queue, `PullDlq` gives out its first messages, `max_messages` of
-- them or all, and the others stay, in their order.
pub pull_dlq_lem :
    (topic : Text) (max_messages : ℕ) (s : MemoryMessageStore) (dlq : List StoredMessage)
    → lookup (make_dlq_name topic) s.dlq_storage ≡ some dlq
    → (let (result, s') = pull_dlq topic max_messages s in
        (length result ≡ min max_messages (length dlq))
        × (rest : List StoredMessage) × (lookup (make_dlq_name topic) s'.dlq_storage ≡ some rest)
        × (result ++ rest ≡ dlq))
unfolding pull_dlq
pull_dlq_lem topic max s dlq e =
    let count = min max (length dlq) in
    rw (pull_dlq, e)
      (
        length-take count dlq ∙ omega arith,
        drop count dlq,
        lookup-insert_self (make_dlq_name topic) (drop count dlq) s.dlq_storage,
        take-append-drop count dlq,
      )
