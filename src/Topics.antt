-- ===== src/Topics.antt =====
-- Topics and their subscribers: src/mq.
pub mod Topic
pub mod TopicManager
