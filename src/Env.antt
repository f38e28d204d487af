-- ===== src/Env.antt =====
-- What the code takes from outside the repository: the buffer sizes of server/config/config.h, which is
-- not checked in (the client's, in client/service/config.h, are 20, 20 and 4096), the contents of uninitialised memory, the clock, and the behaviour
-- of MySQL that the statements of init.sql leave to the database.
use chat_service_socket_cpp.Common.{ℕ, Bool, true, ◌≡◌, Text, text_eq, List}
use chat_service_socket_cpp.Common.Int.{ℤ}
use chat_service_socket_cpp.Memory.{Memory}
use chat_service_socket_cpp.Message.{MessageSend}

-- `struct tm`, the fields that the client prints.
pub record Tm : Type 0 where
  pub tm_mday : ℤ
  pub tm_mon : ℤ
  pub tm_year : ℤ
  pub tm_hour : ℤ
  pub tm_min : ℤ

pub record Env : Type 0 where
  -- SIZE_U, SIZE_P and SIZE_MESS
  pub size_u : ℕ
  pub size_p : ℕ
  pub size_mess : ℕ
  -- the bytes of a `package` before anything is set, and of a `Room`'s `roomID`
  pub junk_message : Memory
  pub junk_room_id : Memory
  -- what stands in a `char` array of the client's stack, and behind it
  pub junk_line : Memory
  -- the `int`s of a fresh array, and of a `STATE` that no constructor sets
  pub junk_fds : ℕ → ℤ
  pub junk_state_type : ℤ
  -- what the array of `getMessageOfUser` reads as behind the messages that it was given
  pub junk_messages : List MessageSend
  -- `system_clock::now()`, as the bits of a `time_t`
  pub now : ℕ
  -- `localtime`
  pub localtime : ℕ → Tm
  -- `=` and `LIKE` between texts in MySQL, by the collation of the column
  pub sql_eq : Text → Text → Bool
  pub sql_like : Text → Text → Bool
  -- whether the columns of the messages take a text and a time: `p_time` is an INTEGER, `time` is NOT
  -- NULL, and `message` has a width
  pub takes_message : Text → ℕ → Bool
  -- a time that went through FROM_UNIXTIME, a DATETIME column and UNIX_TIMESTAMP
  pub stored_time : ℕ → ℕ

-- The collation of the tables tells any two texts apart.
pub record IsBinary (e : Env) : Type 0 where
  pub exact : (s t : Text) → e.sql_eq s t ≡ text_eq s t

-- A text is equal to itself, as in every collation.
pub record IsReflexive (e : Env) : Type 0 where
  pub same : (t : Text) → e.sql_eq t t ≡ true
