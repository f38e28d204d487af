-- ===== src/Client/Forms/Rooms.antt =====
-- `createNewRoom`, `modifyRoomHandler` and `removeRoom`.
use chat_service_socket_cpp.Common.{
  not, Option, none, some, Text, [], txt, text_eq, length, ltb, if◌then◌else◌,
}
use chat_service_socket_cpp.Common.Int.{ℤ, pos, is_pos}
use chat_service_socket_cpp.Env.{Env}
use chat_service_socket_cpp.Memory.{str_to_char}
use chat_service_socket_cpp.Package.{Package, create_room, modify_room, delete_room, set_type}
use chat_service_socket_cpp.Client.Package.{new_package, package_of, zero_package, set_room_m}
use chat_service_socket_cpp.Client.Text.{atoi}
use chat_service_socket_cpp.Client.State.{
  Client, create_room_id, create_room_capacity, wait_room_created, modify_room_id,
  modify_room_capacity, wait_room_modified, delete_room_id, wait_room_deleted, say_line,
  send_package, ask, wait,
}
use chat_service_socket_cpp.Client.Loop.{command_loop}
use chat_service_socket_cpp.Client.Forms.Users.{submit, ask_number}

-- `createNewRoom`, which asks for one room after another.
unfoldable pub next_room : Client → Client
unfolding ask say_line txt
next_room c = ask create_room_id (txt "Room id: ") (say_line (txt "#! Create New Room !#") c)

unfoldable pub start_create_room : Client → Client
unfolding next_room say_line txt
start_create_room c = next_room (say_line (txt "\t?ignore -> to exit") c)

unfoldable pub too_long_id : Client → Client
unfolding say_line txt
too_long_id = say_line (txt "\tOut size of roomID ! Please enter again !")

module _ (e : Env) where
  unfoldable pub enter_room_id : Text → Client → Client
  unfolding too_long_id command_loop ask txt
  enter_room_id id c =
      if text_eq id (txt "?ignore")
      then command_loop c
      else if ltb e.size_u (length id)
      then ask create_room_id (txt "Room id: ") (too_long_id c)
      else if text_eq id []
      then ask create_room_id (txt "Room id: ") c
      else ask (create_room_capacity id) (txt "Capacity: ") c

  unfoldable pub create_room_request : Text → ℤ → Package
  unfolding str_to_char set_type set_room_m zero_package
  create_room_request id capacity =
      set_room_m e (str_to_char id) capacity (set_type create_room zero_package)

  unfoldable pub enter_room_capacity : Text → Text → Client → Client
  unfolding str_to_char atoi create_room_request send_package next_room command_loop ask wait
      say_line txt
  enter_room_capacity id cpt c =
      let nb = atoi (str_to_char cpt) in
      let (ok, c') = send_package (create_room_request id nb) c in
      if text_eq cpt (txt "?ignore")
      then command_loop c
      else if not (is_pos nb)
      then ask (create_room_capacity id) (txt "Capacity: ") (say_line (txt "invalid capacity!!") c)
      else if ok
      then wait wait_room_created c'
      else next_room c'

  -- `modifyRoomHandler`
  unfoldable pub start_modify_room : Client → Client
  unfolding ask txt
  start_modify_room c = ask modify_room_id (txt "[Modify] Enter Room Name : ") c

  unfoldable pub enter_modify_room_id : Text → Client → Client
  unfolding too_long_id start_modify_room command_loop ask txt
  enter_modify_room_id id c =
      if text_eq id (txt "?ignore")
      then command_loop c
      else if ltb e.size_u (length id)
      then start_modify_room (too_long_id c)
      else if text_eq id []
      then start_modify_room c
      else ask (modify_room_capacity id) (txt "[Modify] Enter new capacity: ") c

  unfoldable pub modify_room_request : Text → ℤ → Package
  unfolding str_to_char set_room_m package_of
  modify_room_request id capacity =
      set_room_m e (str_to_char id) capacity (package_of e modify_room)

  -- The client waits, also when nothing was sent.
  unfoldable pub enter_modify_room_capacity : Text → Option ℤ → Client → Client
  unfolding ask_number modify_room_request send_package wait txt
  enter_modify_room_capacity id none c =
      ask_number (modify_room_capacity id) (txt "[Modify] Enter new capacity: ") c
  enter_modify_room_capacity id (some capacity) c =
      wait wait_room_modified (send_package (modify_room_request id capacity) c).1

  -- `removeRoom`: an id that is too long is cleared, and the loop ends with the empty id.
  unfoldable pub start_delete_room : Client → Client
  unfolding ask say_line txt
  start_delete_room c =
      ask delete_room_id (txt "Enter Room ID: ") (say_line (txt "\t#! Delete Room !#") c)

  unfoldable pub delete_room_request : Text → Package
  unfolding str_to_char set_type set_room_m new_package
  delete_room_request id =
      set_type delete_room (set_room_m e (str_to_char id) (pos 2) (new_package e))

  unfoldable pub enter_delete_room_id : Text → Client → Client
  unfolding delete_room_request submit say_line txt
  enter_delete_room_id id c =
      if ltb e.size_u (length id)
      then submit wait_room_deleted (delete_room_request [])
          (say_line (txt "\tOut size of room ID ! Please enter again !") c)
      else submit wait_room_deleted (delete_room_request id) c
