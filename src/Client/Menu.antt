-- ===== src/Client/Menu.antt =====
-- `showMenu`
use chat_service_socket_cpp.Common.{
  ℕ, zero, suc, ◌-◌, Text, [], ◌∷◌, ◌++◌, txt, length, if◌then◌else◌,
}
use chat_service_socket_cpp.Common.Int.{pos, int_eq}
use chat_service_socket_cpp.Env.{Env}
use chat_service_socket_cpp.Client.User.{get_roles}
use chat_service_socket_cpp.Client.State.{Client, say, say_line}

unfoldable pub blanks : ℕ → Text
blanks zero = []
blanks (suc n) = 32 ∷ blanks n

-- cout << left << setw(30) << name << left << setw(40) << what << endl
unfoldable pub menu_line : Text → Text → Client → Client
unfolding blanks say_line
menu_line name what =
    say_line (name ++ blanks (30 - length name) ++ what ++ blanks (40 - length what))

-- cout << right << setw(n) << t << endl
unfoldable pub title : ℕ → Text → Client → Client
unfolding blanks say_line
title n t = say_line (blanks (n - length t) ++ t)

unfoldable pub user_menu : Client → Client
unfolding menu_line say title txt
user_menu c =
    let c0 = title 40 (txt "MENU") (say (txt "\r") c) in
    let c1 = menu_line (txt "\t?with + <username> ") (txt "-> Chat with user 1v1 ") c0 in
    let c2 = menu_line (txt "\t?join + <room name> ") (txt "-> Join a chat room ") c1 in
    let c3 = menu_line (txt "\t?back ") (txt "-> Leave chat") c2 in
    let c4 = menu_line (txt "\t?listroom ") (txt "-> show list of available rooms") c3 in
    let c5 = menu_line (txt "\t?showusers ") (txt "-> show list of online users") c4 in
    let c6 =
      menu_line (txt "\t?findusers + <username> ") (txt "-> find all users with <username>") c5 in
    say_line [] c6

unfoldable pub admin_menu : Client → Client
unfolding menu_line title txt
admin_menu c =
    let c0 = title 45 (txt "Admin Functions") c in
    let c1 = menu_line (txt "\t?createuser ") (txt "-> create a lot of new user") c0 in
    let c2 = menu_line (txt "\t?modifyuser ") (txt "-> modify a user") c1 in
    let c3 = menu_line (txt "\t?deleteuser ") (txt "-> delete a user") c2 in
    let c4 = menu_line (txt "\t?createroom ") (txt "-> create a lot of new room") c3 in
    let c5 = menu_line (txt "\t?modifyroom ") (txt "-> modify a room") c4 in
    let c6 = menu_line (txt "\t?deleteroom ") (txt "-> delete a room") c5 in say_line [] c6

-- `showMenu`
unfoldable pub show_menu : Env → Client → Client
unfolding user_menu admin_menu get_roles
show_menu e c =
    let shown = user_menu c in
    if int_eq (get_roles e c.user) (pos 1) then admin_menu shown else shown
