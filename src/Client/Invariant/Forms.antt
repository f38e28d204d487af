-- ===== src/Client/Invariant/Forms.antt =====
-- User and flags through the administrator's forms.
use chat_service_socket_cpp.Common.{◌≡◌, refl, true, arith, Option, none, some, Text, [], txt}
use chat_service_socket_cpp.Common.Int.{ℤ}
use chat_service_socket_cpp.Env.{Env}
use chat_service_socket_cpp.Memory.{Memory, str_to_char}
use chat_service_socket_cpp.Package.{EType, Package}
use chat_service_socket_cpp.Client.Package.{package_of}
use chat_service_socket_cpp.Client.Text.{atoi}
use chat_service_socket_cpp.Client.State.{
  Prompt, Client, send_package, wait, ask, read_at, say, say_line,
}
use chat_service_socket_cpp.Client.Login.{line_array}
use chat_service_socket_cpp.Client.Forms.Users.{
  submit, too_long_name, ask_number, ask_modify_password, enter_modify_username,
  request_modify_roles, enter_modify_password, enter_modify_role, modify_request, next_user,
  enter_create_username, show_all_roles, enter_create_password, create_request, enter_create_role,
  enter_delete_username, delete_request,
}
use chat_service_socket_cpp.Client.Forms.Rooms.{
  next_room, enter_room_id, enter_room_capacity, create_room_request, start_modify_room,
  enter_modify_room_id, enter_modify_room_capacity, modify_room_request, enter_delete_room_id,
  delete_room_request, too_long_id,
}
use chat_service_socket_cpp.Client.Invariant.{
  is_wait, Moved, Kept-say_line, Kept-send_roles, Kept-send_package, Moved-command_loop,
}

Moved-submit : (q : Prompt) (p : Package) (c : Client) → is_wait q ≡ true → Moved c (submit q p c)
unfolding submit wait
Moved-submit q p c w =
    ground (arith, w, Kept-send_package p c, Moved-command_loop (send_package p c).1)

pub Moved-enter_modify_username :
    (e : Env) (s : Text) (c : Client) → Moved c (enter_modify_username e s c)
unfolding enter_modify_username ask_modify_password too_long_name ask read_at say_line say
Moved-enter_modify_username e s c = ground (arith, Moved-command_loop c)

Moved-request_modify_roles :
    (e : Env) (u w : Text) (c : Client) → Moved c (request_modify_roles e u w c)
unfolding request_modify_roles wait
Moved-request_modify_roles e u w c = ground (arith, Kept-send_roles e c)

pub Moved-enter_modify_password :
    (e : Env) (u s : Text) (c : Client) → Moved c (enter_modify_password e u s c)
unfolding enter_modify_password ask_modify_password too_long_name ask read_at say_line say
Moved-enter_modify_password e u s c = ground (
  arith,
  Moved-command_loop c,
  Moved-request_modify_roles e u s c,
  Moved-request_modify_roles e u [] (too_long_name c),
)

pub Moved-enter_modify_role :
    (e : Env) (u w : Text) (n : Option ℤ) (c : Client) → Moved c (enter_modify_role e u w n c)
unfolding enter_modify_role ask_number ask read_at say_line say
Moved-enter_modify_role e u w none c = ground arith
Moved-enter_modify_role e u w (some r) c =
    Moved-submit Prompt.wait_modified (modify_request e u w r) c refl

pub Moved-enter_create_username :
    (e : Env) (s : Text) (c : Client) → Moved c (enter_create_username e s c)
unfolding enter_create_username too_long_name ask read_at say_line say
Moved-enter_create_username e s c = ground (arith, Moved-command_loop c)

pub Moved-enter_create_password :
    (e : Env) (m : Memory) (s : Text) (c : Client) → Moved c (enter_create_password e m s c)
unfolding enter_create_password show_all_roles wait ask read_at say_line say
Moved-enter_create_password e m s c =
    ground (arith, Moved-command_loop c, Kept-send_package (package_of e EType.get_roles) c)

pub Moved-enter_create_role :
    (e : Env) (u w : Memory) (n : Option ℤ) (c : Client) → Moved c (enter_create_role e u w n c)
unfolding enter_create_role ask_number next_user wait ask read_at say_line say
Moved-enter_create_role e u w none c = ground arith
Moved-enter_create_role e u w (some r) c =
    ground (arith, Kept-send_package (create_request e u w r) c)

pub Moved-enter_delete_username :
    (e : Env) (s : Text) (c : Client) → Moved c (enter_delete_username e s c)
unfolding enter_delete_username too_long_name ask read_at say_line say
Moved-enter_delete_username e s c =
    ground (arith, Moved-submit Prompt.wait_deleted (delete_request e (line_array e s)) c refl)

pub Moved-enter_room_id : (e : Env) (s : Text) (c : Client) → Moved c (enter_room_id e s c)
unfolding enter_room_id too_long_id ask read_at say_line say
Moved-enter_room_id e s c = ground (arith, Moved-command_loop c)

pub Moved-enter_room_capacity :
    (e : Env) (id s : Text) (c : Client) → Moved c (enter_room_capacity e id s c)
unfolding enter_room_capacity next_room wait ask read_at say_line say
Moved-enter_room_capacity e id s c = ground (
  arith,
  Moved-command_loop c,
  Kept-send_package (create_room_request e id (atoi (str_to_char s))) c,
)

pub Moved-enter_modify_room_id :
    (e : Env) (s : Text) (c : Client) → Moved c (enter_modify_room_id e s c)
unfolding enter_modify_room_id start_modify_room too_long_id ask read_at say_line say
Moved-enter_modify_room_id e s c = ground (arith, Moved-command_loop c)

pub Moved-enter_modify_room_capacity :
    (e : Env) (id : Text) (n : Option ℤ) (c : Client)
    → Moved c (enter_modify_room_capacity e id n c)
unfolding enter_modify_room_capacity ask_number wait ask read_at say_line say
Moved-enter_modify_room_capacity e id none c = ground arith
Moved-enter_modify_room_capacity e id (some n) c =
    ground (arith, Kept-send_package (modify_room_request e id n) c)

pub Moved-enter_delete_room_id :
    (e : Env) (s : Text) (c : Client) → Moved c (enter_delete_room_id e s c)
unfolding enter_delete_room_id
Moved-enter_delete_room_id e s c =
    let told = say_line (txt "\tOut size of room ID ! Please enter again !") c in
    ground (
      arith,
      Kept-say_line (txt "\tOut size of room ID ! Please enter again !") c,
      Moved-submit Prompt.wait_room_deleted (delete_room_request e []) told refl,
      Moved-submit Prompt.wait_room_deleted (delete_room_request e s) c refl,
    )
