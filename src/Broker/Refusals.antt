-- ===== src/Broker/Refusals.antt =====
-- Requests that src/mq/broker.cpp turns away.
use proto_msg_queue.Prelude.{
  if_keeps, none_keeps, ℕ, ◌≡◌, ◌≢◌, refl, Bool, true, false, ◌&&◌, some, List, [], ◌∷◌, is_some,
  is_empty, if◌then◌else◌,
}
use proto_msg_queue.Protocol.Frame.{Frame, FrameMessageType}
use proto_msg_queue.Common.Compression.{Zlib}
use proto_msg_queue.Map.{Text, codes}
use proto_msg_queue.Common.ErrorCode.{ErrorCode, code_number, is_success, error_code_to_string}
use proto_msg_queue.Common.DedupWindow.{is_duplicate}
use proto_msg_queue.Common.RateLimiter.{Double}
use proto_msg_queue.Network.Connection.Permits.{acquire_publish_permit}
use proto_msg_queue.Broker.{Broker, Peer, to_conn, Outcome, Readings}
use proto_msg_queue.Broker.Admin.{handle_admin}
use proto_msg_queue.Broker.BatchPublish.{handle_batch_publish}
use proto_msg_queue.Broker.Consume.{handle_subscribe, handle_unsubscribe, handle_pull, handle_ack}
use proto_msg_queue.Broker.Dispatch.{handle_type, on_frame_received}
use proto_msg_queue.Broker.Messages.{Wire, PublishRequest, Response, AdminResponse}
use proto_msg_queue.Broker.Permits.{
  Permit, granted, conn_limited, globally_limited, acquire_permits,
}
use proto_msg_queue.Broker.Publish.{handle_publish, publish_request, if_permitted, is_tracked}
use proto_msg_queue.Broker.Replies.{answer, code_response, admin_response, frame_of}

-- Whether the payload is a request of the frame's type; the types that only the broker sends, and
-- those with no name, carry no request.
unfoldable pub is_request : Wire → FrameMessageType → List ℕ → Bool
is_request wire FrameMessageType.publish p = is_some (wire.parse_publish p)
is_request wire FrameMessageType.batch_publish p = is_some (wire.parse_batch_publish p)
is_request wire FrameMessageType.subscribe p = is_some (wire.parse_subscribe p)
is_request wire FrameMessageType.unsubscribe p = is_some (wire.parse_unsubscribe p)
is_request wire FrameMessageType.pull p = is_some (wire.parse_pull p)
is_request wire FrameMessageType.ack p = is_some (wire.parse_ack p)
is_request wire FrameMessageType.admin p = is_some (wire.parse_admin p)
is_request wire FrameMessageType.ping p = true
is_request wire _ p = false

-- A response that says no: failure, no message number, and that error code.
abbrev pub IsRefusal : Wire → ℕ → Frame → Type 0
IsRefusal wire code g =
    (r : Response) × (r.success ≡ false)
    × (r.message_id ≡ 0)
    × (r.error_code ≡ code)
    × (g ≡ frame_of FrameMessageType.response (wire.serialize_response r))

abbrev pub IsAdminRefusal : Wire → Frame → Type 0
IsAdminRefusal wire g =
    (r : AdminResponse) × (r.success ≡ false)
    × (r.json_result ≡ [])
    × (g ≡ frame_of FrameMessageType.admin (wire.serialize_admin_response r))

-- How each type of frame is refused: an admin request by an admin response, any other request with
-- the code of an invalid request, and what is no request with that of an unknown error.
unfoldable pub Refuses : Wire → FrameMessageType → Frame → Type 0
Refuses wire FrameMessageType.admin g = IsAdminRefusal wire g
Refuses wire FrameMessageType.publish g = IsRefusal wire 2 g
Refuses wire FrameMessageType.batch_publish g = IsRefusal wire 2 g
Refuses wire FrameMessageType.subscribe g = IsRefusal wire 2 g
Refuses wire FrameMessageType.unsubscribe g = IsRefusal wire 2 g
Refuses wire FrameMessageType.pull g = IsRefusal wire 2 g
Refuses wire FrameMessageType.ack g = IsRefusal wire 2 g
Refuses wire _ g = IsRefusal wire 1 g

code_response-IsRefusal :
    (wire : Wire) (code : ErrorCode) (text : Text)
    → is_success code ≡ false
    → IsRefusal wire (code_number code) (code_response wire code text 0)
unfolding code_response
code_response-IsRefusal wire code text h = (
  record {
    success = is_success code;
    error_msg = if is_empty text then error_code_to_string code else text;
    message_id = 0;
    error_code = code_number code;
  },
  h,
  refl,
  refl,
  refl,
)

-- One frame goes back, a refusal, and neither the connection's limit nor the broker changes.
abbrev pub IsTurnedAway :
    {W : Type 0} → Wire → FrameMessageType → Peer W → Broker W → Outcome W → Type 0
IsTurnedAway wire t conn b o = (g : Frame) × (o ≡ answer g conn b) × Refuses wire t g

module _ {W : Type 0} (wire : Wire) (zlib : Zlib) (d : Double W) (r : Readings) (f : Frame)
    (conn : Peer W) (b : Broker W) where
  -- A refusal with a code is one with its number.
  turned :
      (code : ErrorCode) (text : Text)
      → is_success code ≡ false
      → (g : Frame) × (answer (code_response wire code text 0) conn b ≡ answer g conn b)
        × IsRefusal wire (code_number code) g
  turned code text h =
      (code_response wire code text 0, refl, code_response-IsRefusal wire code text h)

  handle_type-IsTurnedAway :
      (t : FrameMessageType)
      → is_request wire t f.payload ≡ false
      → IsTurnedAway wire t conn b (handle_type wire zlib d t r f conn b)
  unfolding handle_type is_request handle_publish handle_batch_publish handle_subscribe
      handle_unsubscribe handle_pull handle_ack handle_admin Refuses code_number is_success
      admin_response
  handle_type-IsTurnedAway FrameMessageType.publish h =
      none_keeps (IsTurnedAway wire FrameMessageType.publish conn b) (wire.parse_publish f.payload)
        _ _ h (turned ErrorCode.invalid_request _ refl)
  handle_type-IsTurnedAway FrameMessageType.batch_publish h =
      if_keeps (IsTurnedAway wire FrameMessageType.batch_publish conn b)
        b.config_manager.global_config.batch_publish_enabled _ _
        (none_keeps (IsTurnedAway wire FrameMessageType.batch_publish conn b)
          (wire.parse_batch_publish f.payload) _ _ h (turned ErrorCode.invalid_request _ refl))
        (turned ErrorCode.invalid_request _ refl)
  handle_type-IsTurnedAway FrameMessageType.subscribe h =
      none_keeps (IsTurnedAway wire FrameMessageType.subscribe conn b)
        (wire.parse_subscribe f.payload) _ _ h (turned ErrorCode.invalid_request _ refl)
  handle_type-IsTurnedAway FrameMessageType.unsubscribe h =
      none_keeps (IsTurnedAway wire FrameMessageType.unsubscribe conn b)
        (wire.parse_unsubscribe f.payload) _ _ h (turned ErrorCode.invalid_request _ refl)
  handle_type-IsTurnedAway FrameMessageType.pull h =
      none_keeps (IsTurnedAway wire FrameMessageType.pull conn b) (wire.parse_pull f.payload) _ _ h
        (turned ErrorCode.invalid_request _ refl)
  handle_type-IsTurnedAway FrameMessageType.ack h =
      none_keeps (IsTurnedAway wire FrameMessageType.ack conn b) (wire.parse_ack f.payload) _ _ h
        (turned ErrorCode.invalid_request _ refl)
  handle_type-IsTurnedAway FrameMessageType.admin h =
      none_keeps (IsTurnedAway wire FrameMessageType.admin conn b) (wire.parse_admin f.payload) _ _
        h
        (
          _,
          refl,
          (
            record {
              success = false;
              error_msg = codes "Failed to parse admin request";
              json_result = [];
            },
            refl,
            refl,
            refl,
          ),
        )
  handle_type-IsTurnedAway FrameMessageType.ping h = absurd (cc)
  handle_type-IsTurnedAway _ h = turned ErrorCode.unknown _ refl

  -- A frame whose payload is not a request of the frame's type, or whose type carries none, changes
  -- nothing: the broker and the connection's limit are as before, and one frame goes back, which is
  -- an admin response for an admin frame and a response for any other, says failure and has no result
  -- or message number, and, as a response, carries the code of an invalid request, or that of an
  -- unknown error where the type is none of a request.
  pub on_frame_received-IsTurnedAway :
      is_request wire f.msg_type f.payload ≡ false
      → IsTurnedAway wire f.msg_type conn b (on_frame_received wire zlib d r f conn b)
  unfolding on_frame_received
  on_frame_received-IsTurnedAway h = handle_type-IsTurnedAway f.msg_type h

-- Everything but the limits is as before.
pub record KeepsAll {W : Type 0} (b b' : Broker W) : Type 0 where
  pub store : b'.store ≡ b.store
  pub topic_manager : b'.topic_manager ≡ b.topic_manager
  pub config_manager : b'.config_manager ≡ b.config_manager
  pub dedup_window : b'.dedup_window ≡ b.dedup_window

keeps_same : {W : Type 0} (b : Broker W) → KeepsAll b b
keeps_same b = record {
  store = refl;
  topic_manager = refl;
  config_manager = refl;
  dedup_window = refl;
}

module _ {W : Type 0} (wire : Wire) (zlib : Zlib) (d : Double W) (r : Readings) (conn : Peer W)
    (b : Broker W) where
  acquire_permits-KeepsAll : (n : ℕ) → KeepsAll b (acquire_permits d n r conn b).2
  unfolding acquire_permits
  acquire_permits-KeepsAll n =
      let P = λ (o : Permit × Peer W × Broker W). KeepsAll b o.2 in
      let same : KeepsAll b b = keeps_same b in
      if_keeps P b.config_manager.global_config.rate_limit_enabled _ _
        (if_keeps P
          (acquire_publish_permit d n r.limiter_made r.limiter_now conn.config
            conn.publish_limiter).0
          _ _
          (record {
            store = refl;
            topic_manager = refl;
            config_manager = refl;
            dedup_window = refl;
          })
          same)
        same

  if_permitted_limited :
      (req : PublishRequest) (p : Permit × Peer W × Broker W)
      → p.0 ≢ granted
      → KeepsAll b p.2
      → (g : Frame) × ((if_permitted wire zlib d r req p).sends ≡ to_conn g ∷ [])
        × IsRefusal wire 7 g
        × KeepsAll b (if_permitted wire zlib d r req p).broker
  unfolding if_permitted answer code_number is_success
  if_permitted_limited req (granted, conn', b') h k = absurd (h refl)
  if_permitted_limited req (conn_limited, conn', b') h k =
      (_, refl, code_response-IsRefusal wire ErrorCode.rate_limit_exceeded _ refl, k)
  if_permitted_limited req (globally_limited, conn', b') h k =
      (_, refl, code_response-IsRefusal wire ErrorCode.rate_limit_exceeded _ refl, k)

  -- A request to publish that one of the two rate limits refuses, and that is no duplicate, is
  -- answered with one frame, which says failure with the code of an exceeded rate limit and has no
  -- message number; nothing is stored or pushed, and the store, the subscriptions, the configuration
  -- and the deduplication window are as before.
  pub handle_publish_limited :
      (f : Frame) (req : PublishRequest)
      → wire.parse_publish f.payload ≡ some req
      → (is_tracked req b && is_duplicate req.producer_id req.sequence_id b.dedup_window) ≡ false
      → (acquire_permits d 1 r conn b).0 ≢ granted
      → (g : Frame) × ((handle_publish wire zlib d r f conn b).sends ≡ to_conn g ∷ [])
        × IsRefusal wire 7 g
        × KeepsAll b (handle_publish wire zlib d r f conn b).broker
  unfolding handle_publish publish_request
  handle_publish_limited f req parsed new limited =
      rw (parsed, handle_publish, new)
        (if_permitted_limited req (acquire_permits d 1 r conn b) limited
          (acquire_permits-KeepsAll 1))
