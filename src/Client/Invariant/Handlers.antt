-- ===== src/Client/Invariant/Handlers.antt =====
-- User and flags through the handlers of lines.
use chat_service_socket_cpp.Common.{
  ◌≡◌, refl, true, false, arith, Text, Bool-cases, inl, inr, [], txt, text_eq,
}
use chat_service_socket_cpp.Common.Int.{int_eq, pos}
use chat_service_socket_cpp.Env.{Env}
use chat_service_socket_cpp.Memory.{Memory, str_to_char}
use chat_service_socket_cpp.Package.{
  EType, Package, set_type, send_mess, terminate_chat, show_room, withh, joinn,
}
use chat_service_socket_cpp.Client.Package.{package_of, set_mess, set_rev, set_room}
use chat_service_socket_cpp.Client.User.{get_roles}
use chat_service_socket_cpp.Client.Text.{drop_last, before_space, after_space}
use chat_service_socket_cpp.Client.Color.{detectmess}
use chat_service_socket_cpp.Client.State.{
  Prompt, Client, send_package, wait, ask, read_at, say, say_line, send,
}
use chat_service_socket_cpp.Client.Login.{
  login_username, login_password, login_request, password_array,
}
use chat_service_socket_cpp.Client.Chat.{
  with_handler, room_handler, terminate, ask_again, send_chat,
}
use chat_service_socket_cpp.Client.Command.{
  command_handler, request, get_all_user, find_user, list_rooms, not_found, admin_command,
  empty_command,
}
use chat_service_socket_cpp.Client.Forms.Users.{
  start_modify, next_user, start_create_user, start_delete_user,
}
use chat_service_socket_cpp.Client.Forms.Rooms.{
  next_room, start_create_room, start_modify_room, start_delete_room,
}
use chat_service_socket_cpp.Client.Invariant.{
  is_wait, Kept, Moved, Moved-either, Kept-say, Kept-say_line, Kept-send_tested, Kept-input_line,
  Kept-send_package, Moved-command_loop, Moved-top, Moved-after_command, Moved-after_with,
}

pub Moved-login_username : (e : Env) (s : Text) (c : Client) → Moved c (login_username e s c)
unfolding login_username ask read_at say_line say
Moved-login_username e s c = ground arith

pub Moved-login_password :
    (e : Env) (m : Memory) (s : Text) (c : Client) → Moved c (login_password e m s c)
unfolding login_password ask read_at say_line say wait
Moved-login_password e m s c =
    let p = login_request e m (password_array e s) in
    ground (arith, Kept-send_package p c, Moved-top e (send_package p c).1)

Kept-send_chat : (e : Env) (t : Text) (c : Client) → Kept c (send_chat e t c)
unfolding send_chat
Kept-send_chat e t c =
    Kept-send_package (set_mess e (detectmess t c.option).0 (package_of e send_mess))
      (record c { option = (detectmess t c.option).1 })

Moved-terminate :
    (e : Env) (p : Prompt) (t : Text) (c : Client) → is_wait p ≡ true → Moved c (terminate e p t c)
unfolding terminate wait
Moved-terminate e p t c w =
    let pkg = set_mess e (str_to_char t) (package_of e terminate_chat) in
    ground (arith, w, Kept-send_package pkg c)

pub Moved-ask_again : (p : Prompt) (c : Client) → is_wait p ≡ false → Moved c (ask_again p c)
unfolding ask_again read_at
Moved-ask_again p c w =
    ground (arith, w, Kept-say (txt "\u{1b}[1A\r") c, Kept-input_line (say (txt "\u{1b}[1A\r") c))

pub Moved-with_handler : (e : Env) (s : Text) (c : Client) → Moved c (with_handler e s c)
unfolding with_handler
Moved-with_handler e s c =
    let mes = drop_last (str_to_char s) in
    ground (
      arith,
      Moved-terminate e Prompt.wait_back_with c.userw c refl,
      Moved-ask_again Prompt.chat_with c refl,
      Kept-send_chat e mes c,
      Moved-after_with e (send_chat e mes c),
    )

pub Moved-room_handler : (e : Env) (s : Text) (c : Client) → Moved c (room_handler e s c)
unfolding room_handler
Moved-room_handler e s c =
    let mes = drop_last (str_to_char s) in
    ground (
      arith,
      Moved-terminate e Prompt.wait_back_room c.roomw c refl,
      Moved-ask_again Prompt.chat_room c refl,
      Kept-send_chat e mes c,
      Moved-top e (send_chat e mes c),
    )

Moved-request : (p : Package) (c : Client) → Moved c (request p c)
unfolding request
Moved-request p c =
    let asked : Client = record c { pkg = p } in
    let c' = (send_package p asked).1 in
    ground (arith, Kept-send_package p asked, Moved-after_command c', Moved-command_loop c')

Moved-get_all_user : (e : Env) (c : Client) → Moved c (get_all_user e c)
unfolding get_all_user wait
Moved-get_all_user e c =
    let told = say_line (txt "\t\t#! Show all user !#") c in
    ground (
      arith,
      Kept-say_line (txt "\t\t#! Show all user !#") c,
      Kept-send_package (package_of e EType.getuser) told,
    )

Moved-find_user : (e : Env) (t : Text) (c : Client) → Moved c (find_user e t c)
unfolding find_user wait
Moved-find_user e t c =
    ground (arith, Kept-send_package (set_mess e (str_to_char t) (package_of e EType.finduser)) c)

Moved-list_rooms : (c : Client) → Moved c (list_rooms c)
unfolding list_rooms
Moved-list_rooms c =
    let asked : Client = record c { pkg = set_type show_room c.pkg } in
    elim (Bool-cases c.flag_check) [
      | inl gone ↦ rw gone (ground (arith, Moved-command_loop asked))
      | inr here ↦ rw here (
          ground (
            arith,
            Kept-send_tested asked.pkg asked here,
            Moved-after_command (send asked.pkg asked),
          ))
    ]

Moved-not_found : (c : Client) → Moved c (not_found c)
unfolding not_found
Moved-not_found c =
    let told = say_line (txt "Command not found ") c in
    ground (arith, Kept-say_line (txt "Command not found ") c, Moved-command_loop told)

Moved-admin_command : (e : Env) (t : Text) (c : Client) → Moved c (admin_command e t c)
unfolding admin_command start_create_user next_user start_modify start_delete_user start_create_room
    next_room start_modify_room start_delete_room ask read_at say_line say
Moved-admin_command e t c = ground (arith, Moved-not_found c)

Moved-empty_command : (c : Client) → Moved c (empty_command c)
unfolding empty_command read_at
Moved-empty_command c =
    ground (arith, Kept-say (txt "\u{1b}[1A\r") c, Kept-input_line (say (txt "\u{1b}[1A\r") c))

Moved-with_command :
    (p : Package) (t : Text) (c : Client) → Moved c (request p (record c { userw = t }))
Moved-with_command p t c = ground (arith, Moved-request p (record c { userw = t }))

Moved-join_command :
    (p : Package) (t : Text) (c : Client) → Moved c (request p (record c { roomw = t }))
Moved-join_command p t c = ground (arith, Moved-request p (record c { roomw = t }))

pub Moved-command_handler : (e : Env) (s : Text) (c : Client) → Moved c (command_handler e s c)
unfolding command_handler
Moved-command_handler e s c =
    let name = before_space s in
    let rest = after_space s in
    let with_pkg = set_rev (str_to_char rest) (set_type withh c.pkg) in
    let join_pkg = set_room (str_to_char rest) (set_type joinn c.pkg) in
    Moved-either (text_eq s []) c _ _ (Moved-empty_command c) (
      Moved-either (text_eq name (txt "?with")) c _ _ (Moved-with_command with_pkg rest c) (
        Moved-either (text_eq name (txt "?join")) c _ _ (Moved-join_command join_pkg rest c) (
          Moved-either (text_eq name (txt "?listroom")) c _ _ (Moved-list_rooms c) (
            Moved-either (text_eq name (txt "?showusers")) c _ _ (Moved-get_all_user e c) (
              Moved-either (text_eq name (txt "?findusers")) c _ _ (Moved-find_user e rest c) (
                Moved-either (int_eq (get_roles e c.user) (pos 1)) c _ _
                  (Moved-admin_command e name c) (Moved-not_found c)))))))
