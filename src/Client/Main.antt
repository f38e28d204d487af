-- ===== src/Client/Main.antt =====
-- client/service/main.cpp and the two threads together: the client's start, and its steps.
use chat_service_socket_cpp.Common.{
  Option, Bool, true, false, List, [], ◌∷◌, Text, txt, if◌then◌else◌,
}
use chat_service_socket_cpp.Common.Int.{ℤ}
use chat_service_socket_cpp.Env.{Env}
use chat_service_socket_cpp.Package.{Package, nowork}
use chat_service_socket_cpp.Client.Package.{package_of}
use chat_service_socket_cpp.Client.User.{new_user}
use chat_service_socket_cpp.Client.Color.{Color}
use chat_service_socket_cpp.Client.State.{
  Prompt, Phase, Client, enter_username, enter_password, wait_login, wait_command, command,
  wait_list, chat_with, chat_room, wait_back_with, wait_back_room, modify_username, modify_password,
  wait_modify_roles, modify_role, wait_modified, create_username, create_password,
  wait_create_roles, create_role, wait_created, delete_username, wait_deleted, create_room_id,
  create_room_capacity, wait_room_created, modify_room_id, modify_room_capacity, wait_room_modified,
  delete_room_id, wait_room_deleted, say_line, ask,
}
use chat_service_socket_cpp.Client.Receiver.{receiver_handler, lose_server, reconnect}
use chat_service_socket_cpp.Client.Loop.{top, command_loop, handlers, after_with, test_flags}
use chat_service_socket_cpp.Client.Login.{login_username, login_password}
use chat_service_socket_cpp.Client.Chat.{with_handler, room_handler}
use chat_service_socket_cpp.Client.Command.{command_handler}
use chat_service_socket_cpp.Client.Forms.Users.{
  ask_modify_role, enter_modify_username, enter_modify_password, enter_modify_role, next_user,
  enter_create_username, enter_create_password, enter_create_role, enter_delete_username,
}
use chat_service_socket_cpp.Client.Forms.Rooms.{
  next_room, enter_room_id, enter_room_capacity, enter_modify_room_id, enter_modify_room_capacity,
  enter_delete_room_id,
}

-- What the two threads meet.
pub data Event : Type 0 where
  -- the terminal: what `getline` and `fgets` read, and `cin >> n`, which fails without a number
  line : Text → Event
  number : Option ℤ → Event
  -- the main thread comes to its wait, or goes on after a signal
  proceed : Event
  -- `recv`: a package, an error, or the end of the connection
  received : Package → Event
  failed : Event
  closed : Event
  -- `reconnectServer` has reached the server
  reconnected : Event

-- What a line does where the main thread reads it.
unfoldable pub enter_line : Env → Prompt → Text → Client → Client
enter_line e enter_username s c = login_username e s c
enter_line e (enter_password name) s c = login_password e name s c
enter_line e command s c = command_handler e s c
enter_line e chat_with s c = with_handler e s c
enter_line e chat_room s c = room_handler e s c
enter_line e modify_username s c = enter_modify_username e s c
enter_line e (modify_password name) s c = enter_modify_password e name s c
enter_line e create_username s c = enter_create_username e s c
enter_line e (create_password name) s c = enter_create_password e name s c
enter_line e delete_username s c = enter_delete_username e s c
enter_line e create_room_id s c = enter_room_id e s c
enter_line e (create_room_capacity id) s c = enter_room_capacity e id s c
enter_line e modify_room_id s c = enter_modify_room_id e s c
enter_line e delete_room_id s c = enter_delete_room_id e s c
enter_line e p s c = c

unfoldable pub enter_number : Env → Prompt → Option ℤ → Client → Client
enter_number e (modify_role name password) n c = enter_modify_role e name password n c
enter_number e (create_role name password) n c = enter_create_role e name password n c
enter_number e (modify_room_capacity id) n c = enter_modify_room_capacity e id n c
enter_number e p n c = c

-- Where the main thread goes on when it is woken.
unfoldable pub wake : Env → Prompt → Client → Client
unfolding ask txt
wake e wait_login c = top e c
wake e wait_command c = handlers e c
wake e wait_list c = command_loop c
wake e wait_back_with c = after_with e c
wake e wait_back_room c = top e c
wake e (wait_modify_roles name password) c = ask_modify_role e name password c
wake e wait_modified c = command_loop c
wake e (wait_create_roles name password) c =
    ask (create_role name password) (txt "Enter the role: ") c
wake e wait_created c = next_user e c
wake e wait_deleted c = command_loop c
wake e wait_room_created c = next_room c
wake e wait_room_modified c = command_loop c
wake e wait_room_deleted c = command_loop c
wake e p c = c

abbrev pub is_reading : Phase → Bool
is_reading Phase.reading = true
is_reading _ = false

-- The main thread, where it waits or is about to.
unfoldable pub go_on : Env → Phase → Client → Client
unfolding wake test_flags
go_on e Phase.before_test c = test_flags c.prompt c
go_on e Phase.before_wait c = record c { phase = Phase.waiting }
go_on e Phase.signalled c = wake e c.prompt c
go_on e p c = c

-- One step of either thread. While the receiving thread looks for the server, it reads nothing.
unfoldable pub step : Env → Event → Client → Client
unfolding enter_line enter_number go_on receiver_handler lose_server reconnect say_line txt
step e (line s) c = if is_reading c.phase then enter_line e c.prompt s c else c
step e (number n) c = if is_reading c.phase then enter_number e c.prompt n c else c
step e proceed c = go_on e c.phase c
step e (received p) c = if c.flag_check then c else receiver_handler e p c
step e failed c = if c.flag_check then c else say_line (txt "Err receiver package from server") c
step e closed c = lose_server c
step e reconnected c = if c.flag_check then reconnect e c else c

unfoldable pub run : Env → List Event → Client → Client
unfolding step
run e [] c = c
run e (ev ∷ evs) c = run e evs (step e ev c)

-- `client()`, and the client when it has connected and begins `Excecute`.
unfoldable pub new_client : Env → Client
unfolding new_user package_of
new_client e = record {
  user = new_user e;
  flag_check = false;
  flag_w = false;
  flag_j = false;
  flag_w_online = false;
  userw = [];
  roomw = [];
  option = Color.default;
  pkg = package_of e nowork;
  prompt = enter_username;
  phase = Phase.reading;
  sent = [];
  shown = [];
}

unfoldable pub start : Env → Client
unfolding new_client top say_line txt
start e = top e (say_line (txt "Connection established!") (new_client e))
