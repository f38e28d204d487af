-- ===== src/Server/Chat.antt =====
-- Conversations: `WithFunction`, `OneToOneChat`, `RoomChat` and `LeaveChatUser`.
use chat_service_socket_cpp.Common.{none, some, [], ◌++◌, Text, txt, text_eq, if◌then◌else◌}
use chat_service_socket_cpp.Common.Int.{ℤ, pos, int_eq, is_neg}
use chat_service_socket_cpp.Env.{Env}
use chat_service_socket_cpp.Memory.{str_to_char}
use chat_service_socket_cpp.Package.{
  EType, Package, with_success, with_fail, onlineuser, offlineuser, fail_terminate,
  success_terminate, fresh, set_type_with, set_sender, user_rev, mess_send,
}
use chat_service_socket_cpp.User.{User, new_user, user_key, set_state}
use chat_service_socket_cpp.Room.{Room, new_room, list_clients}
use chat_service_socket_cpp.StdMap.{find, first, last}
use chat_service_socket_cpp.Database.RoomsDa.{room_key}
use chat_service_socket_cpp.Database.Access
use chat_service_socket_cpp.Server.State.{
  World, Run, write, reply, find_user_by_fd, replace_user, is_online_at,
}
use chat_service_socket_cpp.Server.Offline.{write_all, leave_room}

-- The loop of `WithFunction` over the users: the sender is now with the user `name`.
unfoldable pub connect_with : Env → ℤ → Text → EType → World → World
unfolding replace_user write
connect_with e fd name status w = elim (first user_key (is_online_at fd) w.users) [
  | none ↦ w
  | some (u, v) ↦
      let sender = set_state (pos 1) name u in
      let placed = replace_user sender fd w in
      write fd (set_type_with e status (fresh e with_success))
        (record placed { db = Access.update_state e sender placed.db })
]

-- `WithFunction`
unfoldable pub with_function : Env → ℤ → Package → World → World
unfolding connect_with reply
with_function e fd pk w = elim (find user_key (user_rev e pk) w.users) [
  | none ↦ reply e fd with_fail (txt "This user is not found") w
  | some (result, connection) ↦
      if int_eq connection fd
      then reply e fd with_fail (txt "You cannot chat with yourself!") w
      else connect_with e fd (user_rev e pk) (if is_neg connection then offlineuser else onlineuser)
          w
]

-- The room of the map, or `Room()`.
unfoldable pub room_or_new : Env → Text → World → Room
unfolding new_room
room_or_new e name w = elim (find room_key name w.rooms) [
  | none ↦ new_room e
  | some (id, room) ↦ room
]

-- `RoomChat`: the sender is a member too.
unfoldable pub room_chat : Env → Package → User → World → World
unfolding room_or_new write_all
room_chat e pk u w =
    write_all (list_clients (room_or_new e (str_to_char u.state.name) w))
      (set_sender e (str_to_char u.username) pk) w

-- The first branch of `OneToOneChat`: the message goes to the receiver, or into the database.
unfoldable pub send_to_user : Env → Package → User → World → Run
unfolding write
send_to_user e pk sender w =
    let signed = set_sender e (str_to_char sender.username) pk in
    elim (find user_key sender.state.name w.users) [
      | none ↦ some w
      | some (receiver, connection) ↦
          if is_neg connection
          then elim (Access.save_message e (mess_send e signed) sender.state.name w.db) [
            | none ↦ none
            | some db ↦ some (record w { db = db })
          ]
          else some (write connection signed w)
    ]

-- The user of the connection, as the loop of `OneToOneChat` finds it.
unfoldable pub chat_sender : Env → ℤ → World → User
chat_sender e fd w = elim (last user_key (is_online_at fd) w.users none) [
  | none ↦ new_user e
  | some (u, v) ↦ u
]

-- `OneToOneChat`
unfoldable pub one_to_one_chat : Env → ℤ → Package → World → Run
one_to_one_chat e fd pk w =
    let sender = chat_sender e fd w in
    if int_eq sender.state.type (pos 1)
    then send_to_user e pk sender w
    else if int_eq sender.state.type (pos 2)
    then some (room_chat e pk sender w)
    else some w

-- The text of the reply to `terminateChat`.
unfoldable pub left_text : User → Text
unfolding txt
left_text u =
    if int_eq u.state.type (pos 1)
    then txt "You disconnected with the user: " ++ u.state.name ++ txt "."
    else if int_eq u.state.type (pos 2)
    then txt "You left the room: " ++ u.state.name ++ txt "."
    else u.state.name

-- The loop of `LeaveChatUser` over the users: the entry of `fd` gets an empty state.
unfoldable pub empty_state : Env → ℤ → World → World
unfolding replace_user
empty_state e fd w = elim (first user_key (λ v. int_eq v fd) w.users) [
  | none ↦ w
  | some (userdis, v) ↦
      replace_user (set_state (pos 0) [] userdis) fd
        (record w { db = Access.clear_state e userdis w.db })
]

-- `LeaveChatUser`
unfoldable pub leave_chat_user : Env → ℤ → World → World
unfolding leave_room empty_state left_text find_user_by_fd reply
leave_chat_user e fd w =
    let sender = find_user_by_fd e fd w in
    if text_eq sender.state.name []
    then reply e fd fail_terminate (str_to_char (txt "You are not connected with anyone.")) w
    else let left = if int_eq sender.state.type (pos 2) then leave_room e fd sender w else w in
      reply e fd success_terminate (str_to_char (left_text sender)) (empty_state e fd left)
