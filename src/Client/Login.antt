-- ===== src/Client/Login.antt =====
-- `loginHandler`
use chat_service_socket_cpp.Common.{Text, txt, length, ltb, if◌then◌else◌}
use chat_service_socket_cpp.Env.{Env}
use chat_service_socket_cpp.Memory.{Memory, cstr}
use chat_service_socket_cpp.Package.{Package, loginn, size_message}
use chat_service_socket_cpp.Client.Package.{package_of, set_up}
use chat_service_socket_cpp.Client.Text.{copy_line}
use chat_service_socket_cpp.Client.State.{
  Client, enter_username, enter_password, wait_login, say_line, send_package, ask, wait,
}
use chat_service_socket_cpp.Client.Loop.{top}

-- The array of a line, and the C string that is read from an array. `setUP` copies it into the union,
-- of which the size bounds it here.
unfoldable pub line_array : Env → Text → Memory
unfolding copy_line
line_array e s = copy_line e.size_u 0 s e.junk_line

unfoldable pub password_array : Env → Text → Memory
unfolding copy_line
password_array e s = copy_line e.size_p 0 s e.junk_line

unfoldable pub array_text : Env → Memory → Text
unfolding cstr size_message
array_text e m = cstr (size_message e) 0 m

unfoldable pub login_username : Env → Text → Client → Client
unfolding line_array say_line ask txt
login_username e s c =
    if ltb e.size_u (length s)
    then ask enter_username (txt "Enter username: ")
        (say_line (txt "\tOut size of username ! Please enter again !") c)
    else ask (enter_password (line_array e s)) (txt "Enter password: ") c

-- pkg.setType(loginn); pkg.setUP(username, password);
unfoldable pub login_request : Env → Memory → Memory → Package
unfolding array_text set_up package_of
login_request e username password =
    set_up e (array_text e username) (array_text e password) (package_of e loginn)

unfoldable pub login_password : Env → Memory → Text → Client → Client
unfolding password_array login_request say_line ask send_package wait top txt
login_password e username s c =
    if ltb e.size_p (length s)
    then ask (enter_password username) (txt "Enter password: ")
        (say_line (txt "\tOut size of password! Please enter again !") c)
    else let (ok, c') = send_package (login_request e username (password_array e s)) c in
      if ok then wait wait_login c' else top e c'
