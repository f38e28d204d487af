-- ===== src/Client/Forms/Users.antt =====
-- `modifyHandler`, `showAllRoles`, `createNewUser` and `clearUser`.
use chat_service_socket_cpp.Common.{
  Bool, Option, none, some, Text, [], ◌++◌, txt, text_eq, length, ltb, if◌then◌else◌,
}
use chat_service_socket_cpp.Common.Int.{ℤ}
use chat_service_socket_cpp.Env.{Env}
use chat_service_socket_cpp.Memory.{Memory, str_to_char}
use chat_service_socket_cpp.Package.{
  Package, create_user, modify_user, delete_user, EType, set_type,
}
use chat_service_socket_cpp.Client.Package.{package_of, set_up, set_role}
use chat_service_socket_cpp.Client.Login.{line_array, password_array, array_text}
use chat_service_socket_cpp.Client.State.{
  Client, Prompt, modify_username, modify_password, wait_modify_roles, modify_role, wait_modified,
  create_username, create_password, wait_create_roles, create_role, wait_created, delete_username,
  wait_deleted, say_line, send, send_package, ask, wait,
}
use chat_service_socket_cpp.Client.Loop.{command_loop}

-- The end of most forms: the client waits for the answer if the package was sent.
unfoldable pub submit : Prompt → Package → Client → Client
unfolding send_package wait command_loop
submit p pkg c = let (ok, c') = send_package pkg c in if ok then wait p c' else command_loop c'

unfoldable pub too_long_name : Client → Client
unfolding say_line txt
too_long_name = say_line (txt "\tOut size of username ! Please enter again !")

unfoldable pub is_ignore : Text → Bool
unfolding str_to_char text_eq txt
is_ignore s = text_eq (str_to_char s) (txt "?ignore")

-- cin.clear(); cin.ignore(...); and the question again
unfoldable pub ask_number : Prompt → Text → Client → Client
unfolding say_line ask txt
ask_number p question c = ask p question (say_line (txt "Please enter a number !") c)

-- `modifyHandler`: a name that is too long is cleared, and the loop ends with the empty name.
unfoldable pub start_modify : Client → Client
unfolding ask txt
start_modify c = ask modify_username (txt "[Modify] Enter username : ") c

unfoldable pub ask_modify_password : Text → Client → Client
unfolding ask txt
ask_modify_password name c =
    ask (modify_password name) (txt "[Modify] Enter new password of " ++ name ++ txt " : ") c

module _ (e : Env) where
  unfoldable pub enter_modify_username : Text → Client → Client
  unfolding too_long_name is_ignore ask_modify_password command_loop
  enter_modify_username s c =
      if ltb e.size_u (length s)
      then ask_modify_password [] (too_long_name c)
      else if is_ignore s
      then command_loop c
      else ask_modify_password s c

  -- pkModify.setType(getRoles); send(...); pthread_cond_wait(&cond, &mutex);
  unfoldable pub request_modify_roles : Text → Text → Client → Client
  unfolding package_of send wait
  request_modify_roles name password c =
      wait (wait_modify_roles name password) (send (package_of e EType.get_roles) c)

  unfoldable pub enter_modify_password : Text → Text → Client → Client
  unfolding too_long_name is_ignore request_modify_roles command_loop ask_modify_password
  enter_modify_password name s c =
      if ltb e.size_u (length s)
      then request_modify_roles name [] (too_long_name c)
      else if is_ignore s
      then command_loop c
      else if ltb e.size_p (length s)
      then ask_modify_password name c
      else request_modify_roles name s c

  unfoldable pub ask_modify_role : Text → Text → Client → Client
  unfolding ask txt
  ask_modify_role name password c =
      ask (modify_role name password) (txt "[Modify] Enter new Role: ") c

  -- The package of `modifyHandler`; `c_str()` ends at the first NUL, as `strcpy` does.
  unfoldable pub modify_request : Text → Text → ℤ → Package
  unfolding set_role set_type set_up package_of
  modify_request name password role =
      set_role e role (set_type modify_user (set_up e name password (package_of e EType.get_roles)))

  unfoldable pub enter_modify_role : Text → Text → Option ℤ → Client → Client
  unfolding ask_number modify_request submit txt
  enter_modify_role name password none c =
      ask_number (modify_role name password) (txt "Enter the role: ") c
  enter_modify_role name password (some role) c =
      submit wait_modified (modify_request name password role) c

  -- `createNewUser`, which asks for one user after another.
  unfoldable pub next_user : Client → Client
  unfolding ask say_line txt
  next_user c = ask create_username (txt "Enter username: ") (say_line (txt "\tCreate new user ") c)

  unfoldable pub start_create_user : Client → Client
  unfolding next_user say_line txt
  start_create_user c = next_user (say_line (txt "\t?ignore -> to exit") c)

  unfoldable pub enter_create_username : Text → Client → Client
  unfolding too_long_name is_ignore line_array command_loop ask txt
  enter_create_username s c =
      if ltb e.size_u (length s)
      then ask create_username (txt "Enter username: ") (too_long_name c)
      else if is_ignore s
      then command_loop c
      else ask (create_password (line_array e s)) (txt "Enter password: ") c

  -- `showAllRoles`
  unfoldable pub show_all_roles : Client → Client
  unfolding package_of send_package
  show_all_roles c = (send_package (package_of e EType.get_roles) c).1

  unfoldable pub enter_create_password : Memory → Text → Client → Client
  unfolding is_ignore password_array show_all_roles command_loop ask wait say_line txt
  enter_create_password name s c =
      if ltb e.size_p (length s)
      then ask (create_password name) (txt "Enter password: ")
          (say_line (txt "\tOut size of password! Please enter again !") c)
      else if is_ignore s
      then command_loop c
      else wait (wait_create_roles name (password_array e s)) (show_all_roles c)

  unfoldable pub create_request : Memory → Memory → ℤ → Package
  unfolding array_text set_role set_up package_of
  create_request name password role =
      set_role e role
        (set_up e (array_text e name) (array_text e password) (package_of e create_user))

  unfoldable pub enter_create_role : Memory → Memory → Option ℤ → Client → Client
  unfolding ask_number create_request send_package wait next_user txt
  enter_create_role name password none c =
      ask_number (create_role name password) (txt "Enter the role: ") c
  enter_create_role name password (some role) c =
      let (ok, c') = send_package (create_request name password role) c in
      if ok then wait wait_created c' else next_user c'

  -- `clearUser`
  unfoldable pub start_delete_user : Client → Client
  unfolding ask say_line txt
  start_delete_user c =
      ask delete_username (txt "Enter username: ") (say_line (txt "\t#! Delete user !#") c)

  unfoldable pub delete_request : Memory → Package
  unfolding array_text set_up package_of txt
  delete_request name = set_up e (array_text e name) (txt "123") (package_of e delete_user)

  unfoldable pub enter_delete_username : Text → Client → Client
  unfolding too_long_name line_array delete_request submit ask txt
  enter_delete_username s c =
      if ltb e.size_u (length s)
      then ask delete_username (txt "Enter username: ") (too_long_name c)
      else submit wait_deleted (delete_request (line_array e s)) c
