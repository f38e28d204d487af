-- ===== src/Server/Rooms.antt =====
-- `addRoom`, `JoinRoom`, `ModifyRoom` and `DeleteRoom`.
use chat_service_socket_cpp.Common.{
  not, ◌&&◌, none, some, [], ◌++◌, Text, txt, text_eq, if◌then◌else◌, ◌==◌,
}
use chat_service_socket_cpp.Common.Int.{ℤ, pos, int_eq, is_neg, is_pos}
use chat_service_socket_cpp.Env.{Env}
use chat_service_socket_cpp.Memory.{str_to_char}
use chat_service_socket_cpp.Package.{
  Package, join_success, join_fail, create_success, create_fail, modify_success, modify_fail,
  delete_success, delete_fail, room_name, room_capacity,
}
use chat_service_socket_cpp.User.{user_key, set_state}
use chat_service_socket_cpp.Room.{add, make_room, set_room_id, set_capacity}
use chat_service_socket_cpp.StdMap.{find, first, insert, erase, assign}
use chat_service_socket_cpp.Database.RoomsDa.{room_key}
use chat_service_socket_cpp.Database.Access
use chat_service_socket_cpp.Server.State.{
  World, Run, reply, find_user_by_fd, check_admin, replace_user,
}

-- `addRoom`
unfoldable pub add_room : Env → ℤ → Package → World → Run
unfolding check_admin reply
add_room e fd pk w =
    let id = room_name e pk in
    let room = make_room e id (room_capacity e pk) in
    if check_admin e fd w
    then elim (find room_key id w.rooms) [
      | some found ↦ some (reply e fd create_fail (txt "The roomID already existed!") w)
      | none ↦
          if not (is_neg (room_capacity e pk)) && not (text_eq id [])
          then elim (Access.insert_room e room w.db) [
            | none ↦ none
            | some db ↦ some (
                reply e fd create_success (txt "You have created the room.")
                  (record w { db = db; rooms = insert room_key id room w.rooms }))
          ]
          else some (reply e fd create_fail (txt "The roomID and capacity cannot be empty,") w)
    ]
    else some (reply e fd create_fail (txt "You dont have permission to call this function") w)

-- The loop of `JoinRoom` over the users: the user of the connection is now in the room.
unfoldable pub enter_state : Env → ℤ → Text → World → World
unfolding replace_user
enter_state e fd name w = elim (first user_key (λ v. int_eq v fd) w.users) [
  | none ↦ w
  | some (u, v) ↦
      let userdis = set_state (pos 2) name u in
      let placed = replace_user userdis fd (record w { db = Access.clear_state e u w.db }) in
      record placed { db = Access.update_state e userdis placed.db }
]

-- `JoinRoom`
unfoldable pub join_room : Env → ℤ → Package → World → World
unfolding enter_state reply
join_room e fd pk w =
    let x = room_name e pk in
    elim (find room_key x w.rooms) [
      | none ↦ reply e fd join_fail (txt "The room does not exist.") w
      | some (id, room) ↦
          let (code, room') = add fd room in
          if is_neg code
          then reply e fd join_fail
              (txt "The room reaches its capacity or you are already in the room.") w
          else reply e fd join_success (str_to_char (txt "You entered room <" ++ x ++ txt ">"))
              (enter_state e fd x (record w { rooms = assign room_key id room' w.rooms }))
    ]

-- `ModifyRoom`
unfoldable pub modify_room : Env → ℤ → Package → World → World
unfolding find_user_by_fd reply
modify_room e fd pk w =
    let usr = find_user_by_fd e fd w in
    let id = room_name e pk in
    if int_eq usr.role (pos 1)
    then elim (find room_key id w.rooms) [
      | none ↦
          reply e fd modify_fail (str_to_char (txt "Room '" ++ id ++ txt "' does not exists!")) w
      | some (key, room) ↦
          let changed = set_capacity e (room_capacity e pk) (set_room_id id room) in
          if is_pos (room_capacity e pk)
          then if room.available_users == 0
            then reply e fd modify_success
                (str_to_char (txt "Successfully modified room '" ++ id ++ txt "'!"))
                (record w {
                  rooms = assign room_key key changed w.rooms;
                  db = Access.modify_room_db e changed w.db;
                })
            else reply e fd modify_fail
                (str_to_char (txt "There are users currently in room '" ++ id ++ txt "'!")) w
          else reply e fd modify_fail (str_to_char (txt "RoomID or capacity is invalid!")) w
    ]
    else reply e fd modify_fail (str_to_char (txt "Permission denied!")) w

-- `DeleteRoom`
unfoldable pub delete_room : Env → ℤ → Package → World → World
unfolding find_user_by_fd reply
delete_room e fd pk w =
    let usr = find_user_by_fd e fd w in
    let id = room_name e pk in
    if int_eq usr.role (pos 1)
    then elim (find room_key id w.rooms) [
      | none ↦
          reply e fd delete_fail (str_to_char (txt "Room '" ++ id ++ txt "' does not exist!")) w
      | some (key, room) ↦
          if room.available_users == 0
          then reply e fd delete_success
              (str_to_char (txt "Successfully deleted room '" ++ id ++ txt "'!"))
              (record w {
                rooms = erase room_key key w.rooms;
                db = Access.delete_room_db e room w.db;
              })
          else reply e fd delete_fail
              (str_to_char (txt "There are users currently in room '" ++ id ++ txt "'!")) w
    ]
    else reply e fd delete_fail (str_to_char (txt "Permission denied!")) w
