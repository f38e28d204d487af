-- ===== src/Client/Invariant/Steps.antt =====
-- The invariant of the client, over the steps of both threads.
use chat_service_socket_cpp.Common.{◌≡◌, true, false, ◌&&◌, arith, All, Option, Text}
use chat_service_socket_cpp.Common.Int.{ℤ}
use chat_service_socket_cpp.Env.{Env}
use chat_service_socket_cpp.Package.{loginn, set_type}
use chat_service_socket_cpp.Client.State.{
  Prompt, Client, send_package, wait, ask, read_at, say, say_line, send,
}
use chat_service_socket_cpp.Client.Loop.{top, test_flags}
use chat_service_socket_cpp.Client.Login.{
  login_username, login_password, login_request, password_array,
}
use chat_service_socket_cpp.Client.Package.{package_of, set_up}
use chat_service_socket_cpp.Memory.{Memory}
use chat_service_socket_cpp.Client.Forms.Users.{next_user, ask_modify_role}
use chat_service_socket_cpp.Client.Forms.Rooms.{next_room}
use chat_service_socket_cpp.Client.Main.{enter_line, enter_number, wake}
use chat_service_socket_cpp.Client.Invariant.{
  is_wait, is_login, IsPlaced, Moved, Moved-command_loop, Moved-top, Moved-handlers,
  Moved-after_with,
}
use chat_service_socket_cpp.Client.Invariant.Handlers.{
  Moved-login_username, Moved-login_password, Moved-with_handler, Moved-room_handler,
  Moved-command_handler,
}
use chat_service_socket_cpp.Client.Invariant.Forms.{
  Moved-enter_modify_username, Moved-enter_modify_password, Moved-enter_modify_role,
  Moved-enter_create_username, Moved-enter_create_password, Moved-enter_create_role,
  Moved-enter_delete_username, Moved-enter_room_id, Moved-enter_room_capacity,
  Moved-enter_modify_room_id, Moved-enter_modify_room_capacity, Moved-enter_delete_room_id,
}

-- The client is in no more than one conversation; it waits exactly at the prompts that wait; and as
-- long as nobody is logged in, it stands in `loginHandler` and has sent nothing but logins.
pub record IsClient (c : Client) : Type 0 where
  pub one_chat : c.flag_w && c.flag_j ≡ false
  pub placed : IsPlaced c
  pub login : c.user.flag_l ≡ false → is_login c.prompt ≡ true
  pub only_logins : c.user.flag_l ≡ false → All (λ p. p.type ≡ loginn) c.sent

pub Moved-enter_line :
    (e : Env) (p : Prompt) (s : Text) (c : Client) → IsPlaced c → Moved c (enter_line e p s c)
unfolding enter_line
Moved-enter_line e Prompt.enter_username s c h = Moved-login_username e s c
Moved-enter_line e (Prompt.enter_password name) s c h = Moved-login_password e name s c
Moved-enter_line e Prompt.command s c h = Moved-command_handler e s c
Moved-enter_line e Prompt.chat_with s c h = Moved-with_handler e s c
Moved-enter_line e Prompt.chat_room s c h = Moved-room_handler e s c
Moved-enter_line e Prompt.modify_username s c h = Moved-enter_modify_username e s c
Moved-enter_line e (Prompt.modify_password name) s c h = Moved-enter_modify_password e name s c
Moved-enter_line e Prompt.create_username s c h = Moved-enter_create_username e s c
Moved-enter_line e (Prompt.create_password name) s c h = Moved-enter_create_password e name s c
Moved-enter_line e Prompt.delete_username s c h = Moved-enter_delete_username e s c
Moved-enter_line e Prompt.create_room_id s c h = Moved-enter_room_id e s c
Moved-enter_line e (Prompt.create_room_capacity id) s c h = Moved-enter_room_capacity e id s c
Moved-enter_line e Prompt.modify_room_id s c h = Moved-enter_modify_room_id e s c
Moved-enter_line e Prompt.delete_room_id s c h = Moved-enter_delete_room_id e s c
Moved-enter_line e p s c h = ground (arith, h)

pub Moved-enter_number :
    (e : Env) (p : Prompt) (n : Option ℤ) (c : Client) → IsPlaced c → Moved c (enter_number e p n c)
unfolding enter_number
Moved-enter_number e (Prompt.modify_role name password) n c h =
    Moved-enter_modify_role e name password n c
Moved-enter_number e (Prompt.create_role name password) n c h =
    Moved-enter_create_role e name password n c
Moved-enter_number e (Prompt.modify_room_capacity id) n c h =
    Moved-enter_modify_room_capacity e id n c
Moved-enter_number e p n c h = ground (arith, h)

pub Moved-wake : (e : Env) (p : Prompt) (c : Client) → is_wait p ≡ true → Moved c (wake e p c)
unfolding wake ask_modify_role next_user next_room ask read_at say_line say
Moved-wake e Prompt.wait_login c h = Moved-top e c
Moved-wake e Prompt.wait_command c h = Moved-handlers e c
Moved-wake e Prompt.wait_list c h = Moved-command_loop c
Moved-wake e Prompt.wait_back_with c h = Moved-after_with e c
Moved-wake e Prompt.wait_back_room c h = Moved-top e c
Moved-wake e (Prompt.wait_modify_roles name password) c h = ground arith
Moved-wake e Prompt.wait_modified c h = Moved-command_loop c
Moved-wake e (Prompt.wait_create_roles name password) c h = ground arith
Moved-wake e Prompt.wait_created c h = ground arith
Moved-wake e Prompt.wait_deleted c h = Moved-command_loop c
Moved-wake e Prompt.wait_room_created c h = ground arith
Moved-wake e Prompt.wait_room_modified c h = Moved-command_loop c
Moved-wake e Prompt.wait_room_deleted c h = Moved-command_loop c
Moved-wake e p c h = absurd (ground (arith, h))

-- While nobody is logged in, the main thread stays in `loginHandler`.
abbrev pub Logs : Client → Client → Type 0
Logs c d =
    (is_login d.prompt ≡ true)
    × (All (λ p. p.type ≡ loginn) c.sent → All (λ p. p.type ≡ loginn) d.sent)

top-is_login : (e : Env) (c : Client) → c.user.flag_l ≡ false → Logs c (top e c)
unfolding top ask read_at say
top-is_login e c h = ground (arith, h)

Logs-login_username : (e : Env) (s : Text) (c : Client) → Logs c (login_username e s c)
unfolding login_username ask read_at say_line say
Logs-login_username e s c = ground arith

Logs-login_password :
    (e : Env) (m : Memory) (s : Text) (c : Client)
    → c.user.flag_l ≡ false
    → Logs c (login_password e m s c)
unfolding login_password login_request package_of set_up set_type wait ask read_at send_package send
    say_line say
Logs-login_password e m s c h =
    let p = login_request e m (password_array e s) in
    let c' = (send_package p c).1 in ground (arith, h, top-is_login e c')

pub Logs-enter_line :
    (e : Env) (p : Prompt) (s : Text) (c : Client)
    → is_login c.prompt ≡ true
    → is_login p ≡ true
    → c.user.flag_l ≡ false
    → Logs c (enter_line e p s c)
unfolding enter_line
Logs-enter_line e Prompt.enter_username s c k l h = Logs-login_username e s c
Logs-enter_line e (Prompt.enter_password name) s c k l h = Logs-login_password e name s c h
Logs-enter_line e p s c k l h = ground (arith, k, l)

pub Logs-enter_number :
    (e : Env) (p : Prompt) (n : Option ℤ) (c : Client)
    → is_login c.prompt ≡ true
    → is_login p ≡ true
    → Logs c (enter_number e p n c)
unfolding enter_number
Logs-enter_number e Prompt.enter_username n c k l = ground (arith, k)
Logs-enter_number e p n c k l = ground (arith, k, l)

pub Logs-wake :
    (e : Env) (p : Prompt) (c : Client)
    → is_login p ≡ true
    → is_wait p ≡ true
    → c.user.flag_l ≡ false
    → Logs c (wake e p c)
unfolding wake
Logs-wake e Prompt.wait_login c l w h = top-is_login e c h
Logs-wake e p c l w h = absurd (ground (arith, l, w))

pub Logs-test_flags :
    (p : Prompt) (c : Client)
    → is_login c.prompt ≡ true
    → is_login p ≡ true
    → Logs c (test_flags p c)
unfolding test_flags
Logs-test_flags Prompt.wait_command c k l = absurd (ground (arith, l))
Logs-test_flags p c k l = ground (arith, k)

pub IsClient-Moved :
    (c d : Client) → IsClient c → Moved c d → (c.user.flag_l ≡ false → Logs c d) → IsClient d
IsClient-Moved c d v m l = record {
  one_chat = ground (arith, m, v.one_chat);
  placed = m.1;
  login = λ h. (l (ground (arith, m, h))).0;
  only_logins =
      λ h. let f : c.user.flag_l ≡ false = ground (arith, m, h) in (l f).1 (v.only_logins f);
}
