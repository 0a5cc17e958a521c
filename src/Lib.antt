-- ===== src/Lib.antt =====
-- Verification of proto_msg_queue, a message broker: clients send frames over TCP, the broker keeps
-- the messages of each topic and hands them to subscribers and consumer groups.
--
-- The path of a message: `Connection` (src/network/connection.cpp) takes bytes off a socket and gives
-- them to its `StreamingFrameCodec` (src/protocol/streaming_frame_codec.cpp), which finds frames in
-- them and resynchronises after stray bytes; each frame goes to `Broker::OnFrameReceived`
-- (src/mq/broker.cpp), which looks at the rate limits and the deduplication window, writes the message
-- through `MemoryMessageStore` (src/storage/memory_message_store.cpp) into the topic's
-- `SpscRingBuffer` (src/ring_buffer/spsc_ring_buffer.cpp). A consumer's pull drains the ring into the
-- topic's log and hands out messages, which stay pending until they are confirmed; a background pass
-- tries those that were not again, and gives them up into a dead letter queue. The way out is
-- `Connection::SendFrame`, over `FrameCodec` (src/protocol/frame_codec.cpp).
--
-- The modules:
--   Prelude            names, Boolean tests and list lemmas that the others share
--   Bytes              big-endian words: `be32`, `be_bytes`, `be_read`
--   Map                `std::unordered_map` as an association list over an equality `Eq`
--   Protocol.Frame     src/protocol/frame_protocol.h
--   Protocol.Codec     src/protocol/frame_codec.cpp, one definition per function
--   Protocol.Streaming src/protocol/streaming_frame_codec.cpp; `scan` in its child Scan describes
--                      independently which frame a buffer holds
--   Network.Connection src/network/connection.cpp: `send_frame` for `SendFrame`, `on_read` for `OnRead`;
--                      its child Permits has the publish limiter
--   Network.TcpServer  src/network/tcp_server.cpp: the table of connections under its mutex; its
--                      children Sends and Idle have `SendTo`, `Broadcast` and `HeartbeatLoop`, and
--                      `Step` and `Reach` in its child Reachable are the interleavings of the steps
--                      of the threads
--   Network.TcpClient  src/network/tcp_client.cpp
--   RingBuffer         src/ring_buffer/spsc_ring_buffer.cpp; its child Queue has the abstract queue
--   Storage.Message    `StoredMessage` and its bytes in the ring
--   Storage.Topic      `TopicData` and `Publish`, `Pull`, `Ack` and `DrainRingBuffer` on one topic
--   Storage.Sweep      `ProcessPendingRetries` and `ExpireTopicMessages`
--   Storage.Store      the methods of `MemoryMessageStore` over the table of topics
--   Common.Config      src/common/config.h: the settings, and `ConfigManager`
--   Common.ConfigFile  src/common/config.cpp: the settings as text; its children Search, Written,
--                      Settings and RoundTrip are proofs
--   Common.Decimal     numbers as the C++ library writes and reads them
--   Common.DedupWindow src/common/dedup_window.cpp
--   Common.RateLimiter src/common/rate_limiter.h, over the operations on `double`
--   Common.ErrorCode   src/common/error_code.h
--   Common.Compression src/common/compression.cpp, over zlib
--   Topics.Topic       src/mq/topic.h and the groups of src/mq/topic_manager.h
--   Topics.TopicManager src/mq/topic_manager.cpp, `UnsubscribeByConnId` in its child Departures
--   Broker             src/mq/broker.cpp: its children Publish, BatchPublish, Consume and Admin have the
--                      handlers, Dispatch has `OnFrameReceived`, Messages the messages of
--                      src/proto/msg_queue.proto; Answers, Dedup, Departed, Refusals and Deletion are
--                      proofs
--   Tests              runs on concrete values and instances of the theorems
--
-- State is a record, a method a function from its arguments and the state to its result and the new
-- state. Bytes are numbers; a conversion to a w-bit integer is `% 2 ^ w`, and `add_size` and
-- `sub_size` wrap as `size_t` does. What a system call returned, and each reading of a clock, is an
-- argument, so a theorem holds for every behaviour of the kernel that its hypotheses allow.
--
-- Fuel: a call of `TryParseFrame` is given two rounds for each byte and three more, a round either
-- dropping a byte or moving on to the next of three states. `OnRead` is given a round for each byte
-- and one more, a frame taking ten bytes. `DrainRingBuffer` is given the capacity, a message taking
-- five places or more. `to_string` is given twenty digits, enough for a 64-bit number.
--
-- The broker calls code that is not part of the repository: what protoc generates from the messages
-- (the record `Wire`), zlib (`Zlib`, with its documented behaviour in `IsZlib`) and the arithmetic of
-- `double` (`Double`, with what rounding keeps in `IsRounded`). A handler gives back the calls of
-- `SendFrame` and `SendTo` that it makes, in their order, since it does not read their results.
--
-- Not modelled: sockets, the starting and joining of threads, and the main programs. Of locks only the
-- mutex of the server's table is: a step of a thread ends where it takes or releases that mutex and
-- between the two parts of `Connection::Close`, and otherwise a method of a class is one step, so the
-- ring's two ends do not interleave within an operation. The order in which a loop visits a
-- `std::unordered_map` is that of the association list.
pub mod Prelude
pub mod Bytes
pub mod Map
pub mod Protocol
pub mod Network
pub mod RingBuffer
pub mod Storage
pub mod Common
pub mod Topics
pub mod Broker
pub mod Tests
