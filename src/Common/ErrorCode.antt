-- ===== src/Common/ErrorCode.antt =====
-- src/common/error_code.h: the codes that the broker answers with, and their texts.
use proto_msg_queue.Prelude.{ℕ, Bool, true, false}
use proto_msg_queue.Map.{Text, codes}

-- `enum class ErrorCode : uint32_t`
pub data ErrorCode : Type 0 where
  success unknown invalid_request topic_not_found topic_already_exists : ErrorCode
  not_subscribed already_subscribed rate_limit_exceeded buffer_full : ErrorCode
  message_not_found duplicate_message batch_size_exceeded admin_command_failed : ErrorCode

-- `static_cast<uint32_t>(code)`
unfoldable pub code_number : ErrorCode → ℕ
code_number success = 0
code_number unknown = 1
code_number invalid_request = 2
code_number topic_not_found = 3
code_number topic_already_exists = 4
code_number not_subscribed = 5
code_number already_subscribed = 6
code_number rate_limit_exceeded = 7
code_number buffer_full = 8
code_number message_not_found = 9
code_number duplicate_message = 10
code_number batch_size_exceeded = 11
code_number admin_command_failed = 12

unfoldable pub is_success : ErrorCode → Bool
is_success success = true
is_success _ = false

-- `ErrorCodeToString`, whose default is for values with no enumerator.
unfoldable pub error_code_to_string : ErrorCode → Text
error_code_to_string success = codes "Success"
error_code_to_string unknown = codes "Unknown error"
error_code_to_string invalid_request = codes "Invalid request"
error_code_to_string topic_not_found = codes "Topic not found"
error_code_to_string topic_already_exists = codes "Topic already exists"
error_code_to_string not_subscribed = codes "Not subscribed"
error_code_to_string already_subscribed = codes "Already subscribed"
error_code_to_string rate_limit_exceeded = codes "Rate limit exceeded"
error_code_to_string buffer_full = codes "Buffer full"
error_code_to_string message_not_found = codes "Message not found"
error_code_to_string duplicate_message = codes "Duplicate message"
error_code_to_string batch_size_exceeded = codes "Batch size exceeded"
error_code_to_string admin_command_failed = codes "Admin command failed"
