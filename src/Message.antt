-- ===== src/Message.antt =====
-- server/models/message.h: a chat message. The arrays of the struct are given as C strings.
use chat_service_socket_cpp.Common.{ℕ, Text}

pub record MessageSend : Type 0 where
  pub mess : Text
  pub sender : Text
  -- the bits of a `time_t`
  pub send_time : ℕ
