-- ===== src/Client/Command.antt =====
-- `commandHandler`, `getAllUser` and `findUser`: what a command line does.
use chat_service_socket_cpp.Common.{Text, [], txt, text_eq, if◌then◌else◌}
use chat_service_socket_cpp.Common.Int.{pos, int_eq}
use chat_service_socket_cpp.Env.{Env}
use chat_service_socket_cpp.Memory.{str_to_char}
use chat_service_socket_cpp.Package.{EType, Package, withh, joinn, show_room, set_type}
use chat_service_socket_cpp.Client.Package.{package_of, set_rev, set_room, set_mess}
use chat_service_socket_cpp.Client.User.{get_roles}
use chat_service_socket_cpp.Client.Text.{before_space, after_space}
use chat_service_socket_cpp.Client.State.{
  Client, command, wait_list, say, say_line, send, send_package, input_line, read_at, wait,
}
use chat_service_socket_cpp.Client.Loop.{command_loop, after_command}
use chat_service_socket_cpp.Client.Forms.Users.{start_modify, start_create_user, start_delete_user}
use chat_service_socket_cpp.Client.Forms.Rooms.{
  start_create_room, start_modify_room, start_delete_room,
}

-- A request that leaves the loop when it is sent.
unfoldable pub request : Package → Client → Client
unfolding send_package after_command command_loop
request pkg c =
    let (ok, c') = send_package pkg (record c { pkg = pkg }) in
    if ok then after_command c' else command_loop c'

-- `getAllUser`: the semicolon behind the test lets the client wait in any case.
unfoldable pub get_all_user : Env → Client → Client
unfolding package_of send_package say_line wait txt
get_all_user e c =
    wait wait_list
      (send_package (package_of e EType.getuser) (say_line (txt "\t\t#! Show all user !#") c)).1

-- `findUser`, which waits in any case too
unfoldable pub find_user : Env → Text → Client → Client
unfolding package_of set_mess send_package wait str_to_char
find_user e name c =
    wait wait_list (send_package (set_mess e (str_to_char name) (package_of e EType.finduser)) c).1

-- ?listroom
unfoldable pub list_rooms : Client → Client
unfolding set_type send after_command command_loop
list_rooms c =
    let asked = record c { pkg = set_type show_room c.pkg } in
    if c.flag_check then command_loop asked else after_command (send asked.pkg asked)

unfoldable pub not_found : Client → Client
unfolding say_line command_loop txt
not_found c = command_loop (say_line (txt "Command not found ") c)

-- The commands of an administrator
unfoldable pub admin_command : Env → Text → Client → Client
unfolding start_modify start_create_user start_delete_user start_create_room start_modify_room
    start_delete_room not_found txt
admin_command e name c =
    if text_eq name (txt "?createuser")
    then start_create_user e c
    else if text_eq name (txt "?modifyuser")
    then start_modify c
    else if text_eq name (txt "?deleteuser")
    then start_delete_user e c
    else if text_eq name (txt "?createroom")
    then start_create_room c
    else if text_eq name (txt "?modifyroom")
    then start_modify_room e c
    else if text_eq name (txt "?deleteroom")
    then start_delete_room e c
    else not_found c

-- An empty line: the prompt again.
unfoldable pub empty_command : Client → Client
unfolding say input_line read_at txt
empty_command c = read_at command (input_line (say (txt "\u{1b}[1A\r") c))

-- The loop of `commandHandler`, for a line
unfoldable pub command_handler : Env → Text → Client → Client
unfolding empty_command before_space after_space str_to_char set_rev set_room set_type request
    list_rooms get_all_user find_user admin_command not_found get_roles txt
command_handler e cmd c =
    let name = before_space cmd in
    let rest = after_space cmd in
    if text_eq cmd []
    then empty_command c
    else if text_eq name (txt "?with")
    then request (set_rev (str_to_char rest) (set_type withh c.pkg)) (record c { userw = rest })
    else if text_eq name (txt "?join")
    then request (set_room (str_to_char rest) (set_type joinn c.pkg)) (record c { roomw = rest })
    else if text_eq name (txt "?listroom")
    then list_rooms c
    else if text_eq name (txt "?showusers")
    then get_all_user e c
    else if text_eq name (txt "?findusers")
    then find_user e rest c
    else if int_eq (get_roles e c.user) (pos 1)
    then admin_command e name c
    else not_found c
