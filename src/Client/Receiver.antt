-- ===== src/Client/Receiver.antt =====
-- The receiving thread: `receiverHandler`, and what `doRecieving` does when the server is gone and when
-- it is back.
use chat_service_socket_cpp.Common.{
  true, false, not, Text, [], ◌++◌, txt, text_eq, ◌==◌, if◌then◌else◌,
}
use chat_service_socket_cpp.Env.{Env}
use chat_service_socket_cpp.Database.RolesDa.{to_string}
use chat_service_socket_cpp.Package.{
  EType, Package, code, u_name, p_word, login_state, get_role, mess, sender, send_time, user_status,
  room_name, loginn, onlineuser,
}
use chat_service_socket_cpp.Client.Package.{package_of, set_up}
use chat_service_socket_cpp.Client.User.{
  User, set_username, set_password, set_state, set_roles, get_username, get_password,
}
use chat_service_socket_cpp.Client.State.{
  Client, say_line, send_package, input_line, signal, add_int,
}
use chat_service_socket_cpp.Client.Menu.{show_menu}

-- `day`, `month` and `year`, then hour and minute.
unfoldable pub time_text : Env → Package → Text
unfolding send_time to_string add_int txt
time_text e p =
    let t = e.localtime (send_time e p) in
    txt "["
    ++ to_string t.tm_mday
    ++ txt "/"
    ++ to_string (add_int 1 t.tm_mon)
    ++ txt "/"
    ++ to_string (add_int 1900 t.tm_year)
    ++ txt " "
    ++ to_string t.tm_hour
    ++ txt ":"
    ++ to_string t.tm_min
    ++ txt "] "

-- A chat message, as the client shows it to its user.
unfoldable pub chat_text : Env → User → Package → Text
unfolding sender mess time_text get_username txt
chat_text e u p =
    if text_eq (sender e p) (txt "System")
    then txt "\r" ++ mess e p
    else if not (text_eq (sender e p) (get_username e u))
    then txt "\r                                       \t\t"
      ++ time_text e p
      ++ sender e p
      ++ txt ": "
      ++ mess e p
    else txt "\u{1b}[1A\r                                \r"
      ++ time_text e p
      ++ sender e p
      ++ txt ": "
      ++ mess e p

-- `case loginSuccess`: the user's data, the menu for a user who was not logged in, and the flag.
unfoldable pub log_in : Env → Package → Client → Client
unfolding u_name p_word login_state get_role set_username set_password set_state set_roles show_menu
log_in e p c =
    let user = set_roles e (get_role e p) (
      set_state e (login_state e p)
        (set_password e (p_word e p) (set_username e (u_name e p) c.user))) in
    let known = record c { user = user } in
    let shown = if not user.flag_l then show_menu e known else known in
    record shown { user = record shown.user { flag_l = true } }

-- `case withSuccess`
unfoldable pub with_party : Env → Package → Client → Client
unfolding user_status say_line code txt
with_party e p c =
    let online = user_status e p == code onlineuser in
    let told =
      if online
      then say_line (txt "Connection with " ++ c.userw) c
      else say_line (txt "Send offline msgs to username: " ++ c.userw) c in
    record told { flag_w_online = online; flag_w = true; flag_j = false }

-- `case checkparty`
unfoldable pub check_party : Env → Package → Client → Client
unfolding user_status say_line code txt input_line
check_party e p c =
    let online = user_status e p == code onlineuser in
    let told =
      if online
      then say_line (txt "\ruser " ++ c.userw ++ txt " is now online                           ") c
      else say_line (txt "\ruser " ++ c.userw ++ txt " is now offline                          ")
          c in
    input_line (record told { flag_w_online = online })

-- The message of a package on a line, and after a tab.
unfoldable pub show_mess : Env → Text → Package → Client → Client
unfolding mess say_line
show_mess e before p c = say_line (before ++ mess e p) c

-- `receiverHandler`, by the type of the package
unfoldable pub receive : Env → EType → Package → Client → Client
unfolding chat_text log_in with_party check_party show_mess show_menu say_line input_line signal txt
    room_name mess
receive e EType.nowork p c = say_line (txt "No type is set") c
receive e EType.joinn p c =
    say_line (txt "ROOM ID : " ++ room_name e p) (say_line (txt "\t\tJOIN ROOM") c)
receive e EType.join_success p c =
    signal (record (show_mess e [] p c) { flag_w = false; flag_j = true })
receive e EType.join_fail p c = signal (show_mess e [] p c)
receive e EType.all_room p c = signal (show_mess e [] p c)
receive e EType.send_mess p c = signal (input_line (say_line (chat_text e c.user p) c))
receive e EType.login_success p c = signal (log_in e p c)
receive e EType.login_fail p c = signal (show_mess e (txt "\t\t") p c)
receive e EType.send_fail p c =
    signal (input_line (show_mess e (txt "\r                             ") p c))
receive e EType.create_success p c = signal (show_mess e (txt "\t\t") p c)
receive e EType.create_fail p c = signal (show_mess e (txt "\t\t") p c)
receive e EType.show_users p c = signal (show_mess e (txt "\t\t") p c)
receive e EType.delete_success p c = signal (show_mess e (txt "\t\t") p c)
receive e EType.delete_fail p c = signal (show_mess e (txt "\t\t") p c)
receive e EType.with_success p c = signal (with_party e p c)
receive e EType.checkparty p c = check_party e p c
receive e EType.with_fail p c = signal (show_mess e (txt "\t\t") p c)
receive e EType.success_terminate p c =
    signal (input_line (record (show_menu e c) { flag_w = false; flag_j = false }))
receive e EType.show_roles p c = signal (show_mess e [] p c)
receive e EType.modify_success p c = signal (show_mess e (txt "\t\t") p c)
receive e EType.modify_fail p c = signal (show_mess e (txt "\t\t") p c)
receive e t p c =
    say_line (txt "Message is: " ++ mess e p) (say_line (txt "This type is haven't config") c)

unfoldable pub receiver_handler : Env → Package → Client → Client
unfolding receive
receiver_handler e p c = receive e p.type p c

-- `doRecieving`: the server has closed the connection.
unfoldable pub lose_server : Client → Client
lose_server c = record c { flag_check = true }

-- Reconnected: a user who was logged in logs in again.
unfoldable pub reconnect : Env → Client → Client
unfolding package_of set_up get_username get_password send_package
reconnect e c =
    let found = record c { flag_check = false } in
    let pkg = set_up e (get_username e c.user) (get_password e c.user) (package_of e loginn) in
    if c.user.flag_l then (send_package pkg found).1 else found
