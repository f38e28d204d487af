-- ===== src/Client/Roles.antt =====
-- What a user without the role of an administrator can send.
pub mod Runs
use chat_service_socket_cpp.Common.{
  ◌≡◌, refl, Bool, true, false, arith, All, List, [], ◌∷◌, ◌++◌, Option, Text, txt, ◌==◌,
  if◌then◌else◌, text_eq,
}
use chat_service_socket_cpp.Common.Int.{ℤ, int_eq, pos}
use chat_service_socket_cpp.Env.{Env}
use chat_service_socket_cpp.Memory.{Memory, str_to_char}
use chat_service_socket_cpp.Package.{EType, Package, set_type, loginn}
use chat_service_socket_cpp.Server.Guards.{administers}
use chat_service_socket_cpp.Client.Package.{
  package_of, set_up, set_mess, new_package, set_time, set_rev, set_room,
}
use chat_service_socket_cpp.Client.User.{get_roles, get_username, get_password}
use chat_service_socket_cpp.Client.Text.{drop_last, before_space, after_space}
use chat_service_socket_cpp.Client.Color.{detectmess}
use chat_service_socket_cpp.Client.State.{
  Prompt, Phase, Client, send_package, input_line, wait, ask, read_at, say, say_line, send,
}
use chat_service_socket_cpp.Client.Loop.{
  open_chat, command_loop, top, after_command, test_flags, handlers, after_with,
}
use chat_service_socket_cpp.Client.Login.{
  login_username, login_password, login_request, password_array,
}
use chat_service_socket_cpp.Client.Chat.{
  with_handler, room_handler, terminate, ask_again, send_chat,
}
use chat_service_socket_cpp.Client.Command.{
  admin_command, command_handler, request, get_all_user, find_user, list_rooms, not_found,
  empty_command,
}
use chat_service_socket_cpp.Client.Main.{
  Event, enter_line, enter_number, wake, go_on, step, run, is_reading,
}

-- The prompts of the administrator's forms.
abbrev pub is_form : Prompt → Bool
is_form Prompt.modify_username = true
is_form (Prompt.modify_password name) = true
is_form (Prompt.wait_modify_roles name password) = true
is_form (Prompt.modify_role name password) = true
is_form Prompt.wait_modified = true
is_form Prompt.create_username = true
is_form (Prompt.create_password name) = true
is_form (Prompt.wait_create_roles name password) = true
is_form (Prompt.create_role name password) = true
is_form Prompt.wait_created = true
is_form Prompt.delete_username = true
is_form Prompt.wait_deleted = true
is_form Prompt.create_room_id = true
is_form (Prompt.create_room_capacity id) = true
is_form Prompt.wait_room_created = true
is_form Prompt.modify_room_id = true
is_form (Prompt.modify_room_capacity id) = true
is_form Prompt.wait_room_modified = true
is_form Prompt.delete_room_id = true
is_form Prompt.wait_room_deleted = true
is_form _ = false

-- Of the packages sent, none is an administrator's.
abbrev pub Ordinary : List Package → Type 0
Ordinary ps = All (λ p. administers p.type ≡ false) ps

-- Neither a form is opened, nor anything sent that only an administrator may send.
abbrev pub Plain : Client → Client → Type 0
Plain c d = (is_form d.prompt ≡ false) × (Ordinary c.sent → Ordinary d.sent)

Ordinary-send_package :
    (p : Package) (c : Client)
    → administers p.type ≡ false
    → Ordinary c.sent
    → Ordinary (send_package p c).1.sent
unfolding send_package send say_line say
Ordinary-send_package p c h o = ground (arith, h, o)

Plain-open_chat : (c : Client) → Plain c (open_chat c)
unfolding open_chat read_at input_line say
Plain-open_chat c = ground arith

Plain-command_loop : (c : Client) → Plain c (command_loop c)
unfolding command_loop read_at input_line say
Plain-command_loop c = ground (arith, Plain-open_chat c)

Plain-top : (e : Env) (c : Client) → Plain c (top e c)
unfolding top ask read_at say
Plain-top e c =
    ground
      (arith, Plain-open_chat c, Plain-command_loop (record c { pkg = package_of e EType.nowork }))

Plain-login_username : (e : Env) (s : Text) (c : Client) → Plain c (login_username e s c)
unfolding login_username ask read_at say_line say
Plain-login_username e s c = ground arith

Plain-login_password :
    (e : Env) (m : Memory) (s : Text) (c : Client) → Plain c (login_password e m s c)
unfolding login_password login_request package_of set_up set_type ask read_at say_line say wait
Plain-login_password e m s c =
    let p = login_request e m (password_array e s) in
    ground (arith, Ordinary-send_package p c refl, Plain-top e (send_package p c).1)

Plain-with_handler : (e : Env) (s : Text) (c : Client) → Plain c (with_handler e s c)
unfolding with_handler terminate ask_again send_chat wait read_at input_line say after_with
    package_of set_mess set_time set_type
Plain-with_handler e s c =
    let mes = drop_last (str_to_char s) in
    let end = set_mess e (str_to_char c.userw) (package_of e EType.terminate_chat) in
    let chat = set_mess e (detectmess mes c.option).0 (package_of e EType.send_mess) in
    let colored : Client = record c { option = (detectmess mes c.option).1 } in
    ground (
      arith,
      Ordinary-send_package end c refl,
      Ordinary-send_package chat colored refl,
      Plain-top e (send_package chat colored).1,
    )

Plain-room_handler : (e : Env) (s : Text) (c : Client) → Plain c (room_handler e s c)
unfolding room_handler terminate ask_again send_chat wait read_at input_line say package_of set_mess
    set_time set_type
Plain-room_handler e s c =
    let mes = drop_last (str_to_char s) in
    let end = set_mess e (str_to_char c.roomw) (package_of e EType.terminate_chat) in
    let chat = set_mess e (detectmess mes c.option).0 (package_of e EType.send_mess) in
    let colored : Client = record c { option = (detectmess mes c.option).1 } in
    ground (
      arith,
      Ordinary-send_package end c refl,
      Ordinary-send_package chat colored refl,
      Plain-top e (send_package chat colored).1,
    )

Plain-request : (p : Package) (c : Client) → administers p.type ≡ false → Plain c (request p c)
unfolding request after_command wait
Plain-request p c h =
    let asked : Client = record c { pkg = p } in
    let c' = (send_package p asked).1 in
    ground (arith, Ordinary-send_package p asked h, Plain-open_chat c', Plain-command_loop c')

pub Plain-test_flags :
    (p : Prompt) (c : Client) → is_form c.prompt ≡ false → Plain c (test_flags p c)
unfolding test_flags
Plain-test_flags Prompt.wait_command c k = ground (arith, k, Plain-open_chat c)
Plain-test_flags p c k = ground (arith, k)

Plain-list_rooms : (c : Client) → Plain c (list_rooms c)
unfolding list_rooms send after_command wait set_type
Plain-list_rooms c =
    let asked : Client = record c { pkg = set_type EType.show_room c.pkg } in
    let sent : Client = record asked { sent = asked.pkg ∷ c.sent } in
    ground (arith, Plain-command_loop asked, Plain-open_chat sent)

Plain-get_all_user : (e : Env) (c : Client) → Plain c (get_all_user e c)
unfolding get_all_user wait package_of set_type say_line say
Plain-get_all_user e c =
    let told = say_line (txt "\t\t#! Show all user !#") c in
    ground (arith, Ordinary-send_package (package_of e EType.getuser) told refl)

Plain-find_user : (e : Env) (t : Text) (c : Client) → Plain c (find_user e t c)
unfolding find_user wait package_of set_mess set_time set_type
Plain-find_user e t c =
    ground (
      arith,
      Ordinary-send_package (set_mess e (str_to_char t) (package_of e EType.finduser)) c refl,
    )

Plain-either : (b : Bool) (c x y : Client) → Plain c x → Plain c y → Plain c (if b then x else y)
Plain-either true c x y h k = h
Plain-either false c x y h k = k

Plain-empty_command : (c : Client) → Plain c (empty_command c)
unfolding empty_command read_at input_line say
Plain-empty_command c = ground arith

Plain-not_found : (c : Client) → Plain c (not_found c)
unfolding not_found say_line say
Plain-not_found c = ground (arith, Plain-command_loop (say_line (txt "Command not found ") c))

Plain-refused :
    (e : Env) (t : Text) (c : Client)
    → int_eq (get_roles e c.user) (pos 1) ≡ false
    → Plain c (if int_eq (get_roles e c.user) (pos 1) then admin_command e t c else not_found c)
Plain-refused e t c h = ground (arith, h, Plain-not_found c)

-- The commands of a user who does not have role 1.
Plain-command_handler :
    (e : Env) (s : Text) (c : Client)
    → int_eq (get_roles e c.user) (pos 1) ≡ false
    → Plain c (command_handler e s c)
unfolding command_handler set_rev set_room set_type
Plain-command_handler e s c h =
    let rest = after_space s in
    let name = before_space s in
    let with_pkg = set_rev (str_to_char rest) (set_type EType.withh c.pkg) in
    let join_pkg = set_room (str_to_char rest) (set_type EType.joinn c.pkg) in
    Plain-either (text_eq s []) c _ _ (Plain-empty_command c) (
      Plain-either (text_eq name (txt "?with")) c _ _
        (Plain-request with_pkg (record c { userw = rest }) refl)
        (Plain-either (text_eq name (txt "?join")) c _ _
          (Plain-request join_pkg (record c { roomw = rest }) refl)
          (Plain-either (text_eq name (txt "?listroom")) c _ _ (Plain-list_rooms c) (
            Plain-either (text_eq name (txt "?showusers")) c _ _ (Plain-get_all_user e c) (
              Plain-either (text_eq name (txt "?findusers")) c _ _ (Plain-find_user e rest c)
                (Plain-refused e name c h))))))

pub Plain-enter_line :
    (e : Env) (p : Prompt) (s : Text) (c : Client)
    → is_form c.prompt ≡ false
    → is_form p ≡ false
    → int_eq (get_roles e c.user) (pos 1) ≡ false
    → Plain c (enter_line e p s c)
unfolding enter_line
Plain-enter_line e Prompt.enter_username s c k f h = Plain-login_username e s c
Plain-enter_line e (Prompt.enter_password name) s c k f h = Plain-login_password e name s c
Plain-enter_line e Prompt.command s c k f h = Plain-command_handler e s c h
Plain-enter_line e Prompt.chat_with s c k f h = Plain-with_handler e s c
Plain-enter_line e Prompt.chat_room s c k f h = Plain-room_handler e s c
Plain-enter_line e p s c k f h = ground (arith, k, f)

pub Plain-enter_number :
    (e : Env) (p : Prompt) (n : Option ℤ) (c : Client)
    → is_form c.prompt ≡ false
    → is_form p ≡ false
    → Plain c (enter_number e p n c)
unfolding enter_number
Plain-enter_number e Prompt.command n c k f = ground (arith, k)
Plain-enter_number e p n c k f = ground (arith, k, f)

pub Plain-wake :
    (e : Env) (p : Prompt) (c : Client)
    → is_form c.prompt ≡ false
    → is_form p ≡ false
    → Plain c (wake e p c)
unfolding wake handlers after_with read_at input_line say
Plain-wake e Prompt.wait_login c k f = Plain-top e c
Plain-wake e Prompt.wait_command c k f = ground (arith, Plain-open_chat c, Plain-top e c)
Plain-wake e Prompt.wait_list c k f = Plain-command_loop c
Plain-wake e Prompt.wait_back_with c k f = ground (arith, Plain-top e c)
Plain-wake e Prompt.wait_back_room c k f = Plain-top e c
Plain-wake e p c k f = ground (arith, k, f)
