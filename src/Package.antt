-- ===== src/Package.antt =====
-- server/models/package.h, commonStruct.h and message.h: the package that client and server exchange.
-- Its message is a union, so the fields share one memory, at the offsets below.
pub mod Fields
pub mod Layout
pub mod Wire
use Prim.Native.Nat.{max}
use chat_service_socket_cpp.Common.{ℕ, ◌+◌, ◌-◌, ◌*◌, ◌/◌, Bool, Text, ◌==◌, length}
use chat_service_socket_cpp.Common.Int.{ℤ}
use chat_service_socket_cpp.Memory.{
  Memory, strcpy, cstr, write_word, read_word, word_of_int, int_of_word,
}
use chat_service_socket_cpp.Env.{Env}
use chat_service_socket_cpp.Message.{MessageSend}

-- `enum eType`, and any other value that a peer may send in its place.
pub data EType : Type 0 where
  nowork loginn withh joinn send_mess login_success login_fail with_success with_fail : EType
  join_success join_fail send_success send_fail terminate_chat fail_terminate : EType
  success_terminate show_room all_room show_users create_user create_success create_fail : EType
  modify_user modify_success modify_fail create_room modify_room get_roles show_roles : EType
  delete_user delete_success delete_fail delete_room getuser finduser onlineuser : EType
  offlineuser checkparty : EType
  unknown : ℕ → EType

unfoldable pub code : EType → ℕ
code nowork = 0
code loginn = 1
code withh = 2
code joinn = 3
code send_mess = 4
code login_success = 5
code login_fail = 6
code with_success = 7
code with_fail = 8
code join_success = 9
code join_fail = 10
code send_success = 11
code send_fail = 12
code terminate_chat = 13
code fail_terminate = 14
code success_terminate = 15
code show_room = 16
code all_room = 17
code show_users = 18
code create_user = 19
code create_success = 20
code create_fail = 21
code modify_user = 22
code modify_success = 23
code modify_fail = 24
code create_room = 25
code modify_room = 26
code get_roles = 27
code show_roles = 28
code delete_user = 29
code delete_success = 30
code delete_fail = 31
code delete_room = 32
code getuser = 33
code finduser = 34
code onlineuser = 35
code offlineuser = 36
code checkparty = 37
code (unknown n) = 38 + n

pub record Package : Type 0 where
  pub type : EType
  pub message : Memory

-- The next multiple of `k`, for the alignment of a field.
unfoldable pub align : ℕ → ℕ → ℕ
align k n = (n + (k - 1)) / k * k

-- Offsets in the union. `Login.uName`, `MessSend.mess`, `With.userRev`, `Join.roomName` and
-- `room.roomID` all stand at 0.
module _ (e : Env) where
  -- struct login
  unfoldable pub p_word_at : ℕ
  p_word_at = e.size_u

  unfoldable pub state_at : ℕ
  state_at = e.size_u + e.size_p

  unfoldable pub role_at : ℕ
  unfolding align
  role_at = align 4 (e.size_u + e.size_p + e.size_u)

  -- struct messageSend
  unfoldable pub sender_at : ℕ
  sender_at = e.size_mess

  unfoldable pub send_time_at : ℕ
  unfolding align
  send_time_at = align 8 (e.size_mess + e.size_u)

  -- struct with, struct roomM: the field behind the name
  unfoldable pub behind_name_at : ℕ
  unfolding align
  behind_name_at = align 4 e.size_u

  -- sizeof(union message)
  unfoldable pub size_message : ℕ
  unfolding align role_at send_time_at
  size_message = max (send_time_at + 8) (align 8 (role_at + 4))

  -- A `char` array of the union, read as a C string: to the first NUL, which may stand in a later
  -- field, and at most to the end of the union.
  unfoldable pub field : ℕ → Memory → Text
  unfolding size_message cstr
  field o m = cstr (size_message - o) o m

  -- `showAction()` gives the union; its members:
  unfoldable pub u_name : Package → Text
  unfolding field
  u_name p = field 0 p.message

  unfoldable pub p_word : Package → Text
  unfolding field p_word_at
  p_word p = field p_word_at p.message

  unfoldable pub login_state : Package → Text
  unfolding field state_at
  login_state p = field state_at p.message

  unfoldable pub get_role : Package → ℤ
  unfolding role_at read_word int_of_word
  get_role p = int_of_word (read_word 4 role_at p.message)

  unfoldable pub mess : Package → Text
  unfolding field
  mess p = field 0 p.message

  unfoldable pub sender : Package → Text
  unfolding field sender_at
  sender p = field sender_at p.message

  unfoldable pub send_time : Package → ℕ
  unfolding send_time_at read_word
  send_time p = read_word 8 send_time_at p.message

  unfoldable pub user_rev : Package → Text
  unfolding field
  user_rev p = field 0 p.message

  unfoldable pub user_status : Package → ℕ
  unfolding behind_name_at read_word
  user_status p = read_word 4 behind_name_at p.message

  unfoldable pub room_name : Package → Text
  unfolding field
  room_name p = field 0 p.message

  unfoldable pub room_capacity : Package → ℤ
  unfolding behind_name_at read_word int_of_word
  room_capacity p = int_of_word (read_word 4 behind_name_at p.message)

  unfoldable pub get_len_mess : Package → ℕ
  unfolding mess
  get_len_mess p = length (mess p)

  -- The setters.
  unfoldable pub fresh : EType → Package
  fresh t = record { type = t; message = e.junk_message }

  unfoldable pub set_mess : Text → Package → Package
  unfolding strcpy
  set_mess m p = record p { message = strcpy 0 m p.message }

  unfoldable pub set_up : Text → Text → Package → Package
  unfolding strcpy p_word_at
  set_up u w p = record p { message = strcpy p_word_at w (strcpy 0 u p.message) }

  unfoldable pub set_rev : Text → Package → Package
  unfolding strcpy
  set_rev u p = record p { message = strcpy 0 u p.message }

  unfoldable pub set_sender : Text → Package → Package
  unfolding strcpy sender_at
  set_sender s p = record p { message = strcpy sender_at s p.message }

  unfoldable pub set_room : Text → Package → Package
  unfolding strcpy
  set_room r p = record p { message = strcpy 0 r p.message }

  unfoldable pub set_state : Text → Package → Package
  unfolding strcpy state_at
  set_state s p = record p { message = strcpy state_at s p.message }

  unfoldable pub set_room_m : Text → ℤ → Package → Package
  unfolding strcpy behind_name_at write_word word_of_int
  set_room_m r c p = record p {
    message = write_word 4 behind_name_at (word_of_int c) (strcpy 0 r p.message);
  }

  unfoldable pub set_type_with : EType → Package → Package
  unfolding behind_name_at write_word code
  set_type_with t p = record p { message = write_word 4 behind_name_at (code t) p.message }

  unfoldable pub set_send_time : ℕ → Package → Package
  unfolding send_time_at write_word
  set_send_time w p = record p { message = write_word 8 send_time_at w p.message }

  unfoldable pub set_time : Package → Package
  unfolding set_send_time
  set_time p = set_send_time e.now p

  unfoldable pub set_role : ℤ → Package → Package
  unfolding role_at write_word word_of_int
  set_role r p = record p { message = write_word 4 role_at (word_of_int r) p.message }

-- `setType`, which is also the type in which a package is made below.
unfoldable pub set_type : EType → Package → Package
set_type t p = record p { type = t }

-- `getType() == t`
abbrev pub has_type : EType → Package → Bool
has_type t p = code p.type == code t

-- `showAction().MessSend`
unfoldable pub mess_send : Env → Package → MessageSend
unfolding mess sender send_time
mess_send e p = record { mess = mess e p; sender = sender e p; send_time = send_time e p }

unfoldable pub set_offline_mess : Env → MessageSend → Package → Package
unfolding set_mess set_sender set_send_time
set_offline_mess e msg p =
    set_send_time e msg.send_time (set_sender e msg.sender (set_mess e msg.mess p))
