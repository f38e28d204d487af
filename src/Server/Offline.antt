-- ===== src/Server/Offline.antt =====
-- What the server does when a client leaves, and the messages that it keeps for absent users:
-- `LeaveRoom`, `changeStateUserOff`, `notificationOffline` and `handleOfflineMessage`.
use chat_service_socket_cpp.Common.{
  Bool, true, false, ◌&&◌, none, some, List, [], ◌∷◌, ◌++◌, Text, txt, text_eq, if◌then◌else◌, ltb,
}
use chat_service_socket_cpp.Common.Int.{ℤ, pos, negsuc, int_eq, is_pos}
use chat_service_socket_cpp.Env.{Env}
use chat_service_socket_cpp.Memory.{str_to_char}
use chat_service_socket_cpp.Message.{MessageSend}
use chat_service_socket_cpp.Package.{
  EType, Package, nowork, send_mess, set_type, checkparty, fresh, set_mess, set_sender, set_time,
  set_type_with, set_offline_mess,
}
use chat_service_socket_cpp.User.{User, user_key, set_state}
use chat_service_socket_cpp.Room.{Room, list_clients, remove_user, get_room_id}
use chat_service_socket_cpp.StdMap.{find, first, insert, erase}
use chat_service_socket_cpp.Database.RoomsDa.{room_key}
use chat_service_socket_cpp.Database.Access
use chat_service_socket_cpp.Server.State.{World, write, find_user_by_fd, replace_user}

-- One package to each client of a list.
unfoldable pub write_all : List ℤ → Package → World → World
unfolding write
write_all [] p w = w
write_all (fd ∷ fds) p w = write_all fds p (write fd p w)

-- "Notification: <user> left room." from "System"
unfoldable pub left_notice : Env → User → Package
unfolding str_to_char txt
left_notice e u = set_sender e (txt "System") (
    set_mess e (txt "Notification: " ++ str_to_char u.username ++ txt " left room.")
      (set_time e (fresh e send_mess)))

-- `if (availableUsers > 0)` in `LeaveRoom`: those who stay are told.
unfoldable pub tell_left : Env → User → Room → World → World
unfolding write_all left_notice
tell_left e u temp w =
    if ltb 0 temp.available_users then write_all (list_clients temp) (left_notice e u) w else w

-- `LeaveRoom`: the room goes back into the map under the id that its own bytes give.
unfoldable pub leave_room : Env → ℤ → User → World → World
unfolding tell_left
leave_room e fd u w = elim (find room_key u.state.name w.rooms) [
  | none ↦ w
  | some (id, room) ↦
      let temp = remove_user fd room in
      let told = tell_left e u temp w in
      record told { rooms = insert room_key (get_room_id temp) temp (erase room_key id told.rooms) }
]

-- `changeStateUserOff`
unfoldable pub change_state_user_off : Env → ℤ → World → Bool × World
unfolding leave_room replace_user
change_state_user_off e fd w = elim (first user_key (λ v. int_eq v fd) w.users) [
  | none ↦ (false, w)
  | some (userdis, v) ↦
      let left = if int_eq userdis.state.type (pos 2) then leave_room e fd userdis w else w in
      let cleared = record left { db = Access.clear_state e userdis left.db } in
      (true, replace_user (set_state (pos 0) [] userdis) (negsuc 0) cleared)
]

-- Is the entry an online user who is with the user `name`?
abbrev pub is_party : Text → User × ℤ → Bool
is_party name (u, v) = is_pos v && int_eq u.state.type (pos 1) && text_eq u.state.name name

unfoldable pub notify_parties : Package → Text → List (User × ℤ) → World → World
unfolding write
notify_parties p name [] w = w
notify_parties p name ((u, v) ∷ m) w =
    notify_parties p name m (if is_party name (u, v) then write v p w else w)

-- `notificationOffline`
unfoldable pub notification_offline : Env → ℤ → EType → World → World
unfolding notify_parties find_user_by_fd
notification_offline e fd t w =
    let usr = find_user_by_fd e fd w in
    if text_eq usr.username []
    then w
    else notify_parties (set_type_with e t (fresh e checkparty)) usr.username w.users w

-- `while (strlen(messageArr->mess) > 0)`, with one package for all messages.
unfoldable pub deliver : Env → ℤ → List MessageSend → Package → World → World
unfolding write
deliver e fd [] p w = w
deliver e fd (msg ∷ msgs) p w =
    let p' = set_type send_mess (set_offline_mess e msg p) in
    let rest = deliver e fd msgs p' (write fd p' w) in if text_eq msg.mess [] then w else rest

-- `handleOfflineMessage`
unfoldable pub handle_offline_message : Env → ℤ → World → World
unfolding deliver find_user_by_fd
handle_offline_message e fd w =
    let usr = find_user_by_fd e fd w in
    elim (Access.get_message_of_user e usr w.db) [
      | none ↦ w
      | some msgs ↦
          let told = deliver e fd (msgs ++ e.junk_messages) (fresh e nowork) w in
          record told { db = Access.delete_message_of_user e usr told.db }
    ]
