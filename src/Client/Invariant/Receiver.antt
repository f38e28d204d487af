-- ===== src/Client/Invariant/Receiver.antt =====
-- The state of the main thread through `receiverHandler`.
use chat_service_socket_cpp.Common.{◌≡◌, true, false, ◌&&◌, arith, Text, [], ◌++◌, txt}
use chat_service_socket_cpp.Env.{Env}
use chat_service_socket_cpp.Package.{EType, Package, mess, u_name, p_word, login_state, get_role}
use chat_service_socket_cpp.Client.User.{set_username, set_password, set_state, set_roles}
use chat_service_socket_cpp.Client.State.{Client, Phase, say, say_line, input_line, signal}
use chat_service_socket_cpp.Client.Menu.{show_menu, user_menu, admin_menu, menu_line, title}
use chat_service_socket_cpp.Client.Receiver.{
  receive, chat_text, log_in, with_party, check_party, show_mess,
}
use chat_service_socket_cpp.Client.Main.{is_reading}

-- Only what is shown differs.
abbrev pub Shows : Client → Client → Type 0
Shows c d =
    (d.user ≡ c.user)
    × (d.flag_w ≡ c.flag_w)
    × (d.flag_j ≡ c.flag_j)
    × (d.prompt ≡ c.prompt)
    × (d.phase ≡ c.phase)
    × (d.sent ≡ c.sent)

pub Shows-input_line : (c : Client) → Shows c (input_line c)
unfolding input_line say
Shows-input_line c = ground arith

pub Shows-show_menu : (e : Env) (c : Client) → Shows c (show_menu e c)
unfolding show_menu user_menu admin_menu menu_line title say_line say
Shows-show_menu e c = ground arith

-- The receiving thread may set or clear the flags of a conversation, never both; it may log the user
-- in; and it may wake the main thread, if that waits already.
abbrev pub Got : Client → Client → Type 0
Got c d =
    (d.prompt ≡ c.prompt)
    × (d.sent ≡ c.sent)
    × (is_reading d.phase ≡ is_reading c.phase)
    × (c.flag_w && c.flag_j ≡ false → d.flag_w && d.flag_j ≡ false)
    × (d.user.flag_l ≡ false → c.user.flag_l ≡ false)
    × (c.phase ≡ Phase.before_wait → d.phase ≡ Phase.before_wait)

pub Got-signal : (c : Client) → Got c (signal c)
unfolding signal
Got-signal c = ground arith

Got-log_in : (e : Env) (p : Package) (c : Client) → Got c (log_in e p c)
unfolding log_in set_username set_password set_state set_roles
Got-log_in e p c =
    let user = set_roles e (get_role e p) (
      set_state e (login_state e p)
        (set_password e (p_word e p) (set_username e (u_name e p) c.user))) in
    ground (arith, Shows-show_menu e (record c { user = user }))

Got-with_party : (e : Env) (p : Package) (c : Client) → Got c (with_party e p c)
unfolding with_party say_line say
Got-with_party e p c = ground arith

Got-check_party : (e : Env) (p : Package) (c : Client) → Got c (check_party e p c)
unfolding check_party input_line say_line say
Got-check_party e p c = ground arith

Got-show_mess : (e : Env) (t : Text) (p : Package) (c : Client) → Got c (show_mess e t p c)
unfolding show_mess say_line say
Got-show_mess e t p c = ground arith

Got-chat : (t : Text) (c : Client) → Got c (input_line (say_line t c))
unfolding say_line say input_line
Got-chat t c = ground arith

-- A package that is shown, and a signal.
Got-answer : (e : Env) (t : Text) (p : Package) (c : Client) → Got c (signal (show_mess e t p c))
Got-answer e t p c = ground (arith, Got-show_mess e t p c, Got-signal (show_mess e t p c))

Got-ended :
    (e : Env) (c : Client)
    → Got c (input_line (record (show_menu e c) { flag_w = false; flag_j = false }))
Got-ended e c = ground (
  arith,
  Shows-show_menu e c,
  Shows-input_line (record (show_menu e c) { flag_w = false; flag_j = false }),
)

pub Got-receive : (e : Env) (t : EType) (p : Package) (c : Client) → Got c (receive e t p c)
unfolding receive show_mess say_line say
Got-receive e EType.nowork p c = ground arith
Got-receive e EType.joinn p c = ground arith
Got-receive e EType.join_success p c =
    ground (arith, Got-signal (record (show_mess e [] p c) { flag_w = false; flag_j = true }))
Got-receive e EType.join_fail p c = Got-answer e [] p c
Got-receive e EType.all_room p c = Got-answer e [] p c
Got-receive e EType.send_mess p c =
    let told = input_line (say_line (chat_text e c.user p) c) in
    ground (arith, Got-chat (chat_text e c.user p) c, Got-signal told)
Got-receive e EType.login_success p c = ground (arith, Got-log_in e p c, Got-signal (log_in e p c))
Got-receive e EType.login_fail p c = Got-answer e (txt "\t\t") p c
Got-receive e EType.send_fail p c =
    let text = txt "\r                             " ++ mess e p in
    ground (arith, Got-chat text c, Got-signal (input_line (say_line text c)))
Got-receive e EType.create_success p c = Got-answer e (txt "\t\t") p c
Got-receive e EType.create_fail p c = Got-answer e (txt "\t\t") p c
Got-receive e EType.show_users p c = Got-answer e (txt "\t\t") p c
Got-receive e EType.delete_success p c = Got-answer e (txt "\t\t") p c
Got-receive e EType.delete_fail p c = Got-answer e (txt "\t\t") p c
Got-receive e EType.with_success p c =
    ground (arith, Got-with_party e p c, Got-signal (with_party e p c))
Got-receive e EType.checkparty p c = Got-check_party e p c
Got-receive e EType.with_fail p c = Got-answer e (txt "\t\t") p c
Got-receive e EType.success_terminate p c =
    let ended = input_line (record (show_menu e c) { flag_w = false; flag_j = false }) in
    ground (arith, Got-ended e c, Got-signal ended)
Got-receive e EType.show_roles p c = Got-answer e [] p c
Got-receive e EType.modify_success p c = Got-answer e (txt "\t\t") p c
Got-receive e EType.modify_fail p c = Got-answer e (txt "\t\t") p c
Got-receive e t p c = ground arith
