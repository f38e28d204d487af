-- ===== src/Server/RoomSync/Frame.antt =====
-- The handlers that leave the rooms and their table alone.
use chat_service_socket_cpp.Common.{
  ◌≡◌, Text, some, none, arith, if◌then◌else◌, Option, Option-cases, inl, inr,
}
use chat_service_socket_cpp.Common.Int.{ℤ, int_eq, is_neg}
use chat_service_socket_cpp.Env.{Env}
use chat_service_socket_cpp.Memory.{str_to_char}
use chat_service_socket_cpp.Message.{MessageSend}
use chat_service_socket_cpp.Package.{
  EType, Package, u_name, p_word, get_role, user_rev, onlineuser, offlineuser, set_sender,
  mess_send,
}
use chat_service_socket_cpp.User.{
  User, user_key, set_username, new_user, set_role, set_password, named_user,
}
use chat_service_socket_cpp.Room.{list_clients}
use chat_service_socket_cpp.StdMap.{find, first}
use chat_service_socket_cpp.Database.Sql.{Tables}
use chat_service_socket_cpp.Database.Access
use chat_service_socket_cpp.Server.State.{World, is_online_at}
use chat_service_socket_cpp.Server.Chat.{
  with_function, connect_with, one_to_one_chat, send_to_user, room_chat, room_or_new, chat_sender,
  empty_state,
}
use chat_service_socket_cpp.Server.Rooms.{enter_state}
use chat_service_socket_cpp.Server.Users.{admitted_role, add_user, delete_user, handle_modify_user}
use chat_service_socket_cpp.Server.Frame.{SameState, SameState-write_all}
use chat_service_socket_cpp.Server.Invariant.{Ends}
use chat_service_socket_cpp.Server.RoomSync.Keep.{SameRooms}

-- The statements on users and messages leave the table of rooms alone.
abbrev SameRows : Option Tables → Tables → Type 0
SameRows none db = Unit
SameRows (some after) db = after.rooms ≡ db.rooms

insert_user-SameRows : (e : Env) (u : User) (db : Tables) → SameRows (Access.insert_user e u db) db
unfolding Access.insert_user
insert_user-SameRows e u db = ground arith

modify_user-SameRows :
    (e : Env) (u : User) (db : Tables) → SameRows (Access.modify_user_db e u db) db
unfolding Access.modify_user_db
modify_user-SameRows e u db = ground arith

delete_user-SameRows :
    (e : Env) (u : User) (db : Tables) → SameRows (Access.delete_user_db e u db) db
unfolding Access.delete_user_db
delete_user-SameRows e u db = ground arith

save_message-SameRows :
    (e : Env) (m : MessageSend) (r : Text) (db : Tables)
    → SameRows (Access.save_message e m r db) db
unfolding Access.save_message
save_message-SameRows e m r db = ground arith

pub SameState-SameRooms : (v w : World) → SameState v w → SameRooms v w
SameState-SameRooms v w k = record { rooms = k.rooms; rows = ground (arith, k.db) }

connect_with-SameRooms :
    (e : Env) (fd : ℤ) (name : Text) (status : EType) (w : World)
    → SameRooms (connect_with e fd name status w) w
unfolding connect_with Access.update_state
connect_with-SameRooms e fd name status w =
    elim (Option-cases (first user_key (is_online_at fd) w.users)) [
      | inl n ↦ ground (arith, n)
      | inr ((u, x), n) ↦ ground (arith, n)
    ]

pub with_function-SameRooms :
    (e : Env) (fd : ℤ) (pk : Package) (w : World) → SameRooms (with_function e fd pk w) w
unfolding with_function
with_function-SameRooms e fd pk w = elim (Option-cases (find user_key (user_rev e pk) w.users)) [
  | inl n ↦ ground (arith, n)
  | inr ((u, x), n) ↦ ground (
    arith,
    n,
    connect_with-SameRooms e fd (user_rev e pk) (if is_neg x then offlineuser else onlineuser) w,
  )
]

send_to_user-SameRooms :
    (e : Env) (pk : Package) (u : User) (w : World)
    → Ends (λ v. SameRooms v w) (send_to_user e pk u w)
unfolding send_to_user
send_to_user-SameRooms e pk u w =
    let signed = set_sender e (str_to_char u.username) pk in
    elim (Option-cases (find user_key u.state.name w.users)) [
      | inl n ↦ ground (arith, n)
      | inr ((r, x), n) ↦
          ground (arith, n, save_message-SameRows e (mess_send e signed) u.state.name w.db)
    ]

room_chat-SameRooms :
    (e : Env) (pk : Package) (u : User) (w : World) → SameRooms (room_chat e pk u w) w
unfolding room_chat
room_chat-SameRooms e pk u w = SameState-SameRooms (room_chat e pk u w) w (
    SameState-write_all (list_clients (room_or_new e (str_to_char u.state.name) w))
      (set_sender e (str_to_char u.username) pk) w)

pub one_to_one_chat-SameRooms :
    (e : Env) (fd : ℤ) (pk : Package) (w : World)
    → Ends (λ v. SameRooms v w) (one_to_one_chat e fd pk w)
unfolding one_to_one_chat
one_to_one_chat-SameRooms e fd pk w = ground (
  arith,
  send_to_user-SameRooms e pk (chat_sender e fd w) w,
  room_chat-SameRooms e pk (chat_sender e fd w) w,
)

pub empty_state-SameRooms : (e : Env) (fd : ℤ) (w : World) → SameRooms (empty_state e fd w) w
unfolding empty_state Access.clear_state
empty_state-SameRooms e fd w = elim (Option-cases (first user_key (λ x. int_eq x fd) w.users)) [
  | inl n ↦ ground (arith, n)
  | inr ((u, x), n) ↦ ground (arith, n)
]

pub enter_state-SameRooms :
    (e : Env) (fd : ℤ) (name : Text) (w : World) → SameRooms (enter_state e fd name w) w
unfolding enter_state Access.clear_state Access.update_state
enter_state-SameRooms e fd name w =
    elim (Option-cases (first user_key (λ x. int_eq x fd) w.users)) [
      | inl n ↦ ground (arith, n)
      | inr ((u, x), n) ↦ ground (arith, n)
    ]

pub add_user-SameRooms :
    (e : Env) (fd : ℤ) (pk : Package) (w : World) → Ends (λ v. SameRooms v w) (add_user e fd pk w)
unfolding add_user
add_user-SameRooms e fd pk w =
    let us = set_role (admitted_role (get_role e pk)) (named_user (u_name e pk) (p_word e pk)) in
    ground (arith, insert_user-SameRows e us w.db)

pub delete_user-SameRooms :
    (e : Env) (fd : ℤ) (pk : Package) (w : World)
    → Ends (λ v. SameRooms v w) (delete_user e fd pk w)
unfolding delete_user
delete_user-SameRooms e fd pk w =
    elim (Option-cases (find user_key (set_username (u_name e pk) (new_user e)).username w.users)) [
      | inl n ↦ ground (arith, n)
      | inr ((u, x), n) ↦ ground (arith, n, delete_user-SameRows e u w.db)
    ]

pub handle_modify_user-SameRooms :
    (e : Env) (fd : ℤ) (pk : Package) (w : World)
    → Ends (λ v. SameRooms v w) (handle_modify_user e fd pk w)
unfolding handle_modify_user
handle_modify_user-SameRooms e fd pk w = elim (Option-cases (find user_key (u_name e pk) w.users)) [
  | inl n ↦ ground (arith, n)
  | inr ((u, x), n) ↦
      let modified = set_role (admitted_role (get_role e pk)) (set_password (p_word e pk) u) in
      ground (arith, n, modify_user-SameRows e modified w.db)
]
