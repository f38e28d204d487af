-- ===== src/Server/Login.antt =====
-- `Login`. The package that it sends is its local `pakSen`, with what the memory held there as `fresh`
-- takes it from the environment.
use chat_service_socket_cpp.Common.{Bool, true, false, none, some, txt, text_eq, if◌then◌else◌}
use chat_service_socket_cpp.Common.Int.{ℤ, pos, int_eq, is_pos, is_neg}
use chat_service_socket_cpp.Env.{Env}
use chat_service_socket_cpp.Memory.{str_to_char}
use chat_service_socket_cpp.Package.{
  Package, login_success, login_fail, onlineuser, fresh, set_mess, set_role, set_up, set_state,
  u_name, p_word,
}
use chat_service_socket_cpp.User.{User, user_key}
use chat_service_socket_cpp.Room.{add}
use chat_service_socket_cpp.StdMap.{find, assign}
use chat_service_socket_cpp.Database.RoomsDa.{room_key}
use chat_service_socket_cpp.Server.State.{World, write, reply}
use chat_service_socket_cpp.Server.Offline.{notification_offline, handle_offline_message}

-- The package of a successful login.
unfoldable pub login_package : Env → User → Package
unfolding str_to_char txt
login_package e u = set_state e (str_to_char u.state.name) (
    set_up e (str_to_char u.username) (str_to_char u.password) (
      set_role e u.role
        (set_mess e (txt "You have succcessfully logged in!") (fresh e login_success))))

-- A user whose state is a room goes back into it: the world after it, and whether `Room::add` took
-- the user.
unfoldable pub rejoin : ℤ → User → World → Bool × World
rejoin fd u w =
    if int_eq u.state.type (pos 2)
    then elim (find room_key u.state.name w.rooms) [
      | none ↦ (true, w)
      | some (id, room) ↦
          let (code, room') = add fd room in
          if is_neg code
          then (false, w)
          else (true, record w { rooms = assign room_key id room' w.rooms })
    ]
    else (true, w)

-- The end of a login whose password is right.
unfoldable pub login_accepted : Env → ℤ → User → World → World
unfolding login_package rejoin write notification_offline handle_offline_message
login_accepted e fd u w =
    let online = record w { users = assign user_key u.username fd w.users } in
    let (back, w') = rejoin fd u online in
    if back
    then notification_offline e fd onlineuser
        (handle_offline_message e fd (write fd (login_package e u) w'))
    else w'

-- `Login`
unfoldable pub login : Env → ℤ → Package → World → World
unfolding login_accepted reply
login e fd pk w = elim (find user_key (u_name e pk) w.users) [
  | none ↦ reply e fd login_fail (txt "Username not exist!!") w
  | some (u, v) ↦
      if is_pos v
      then reply e fd login_fail (txt "Sorry your account is being login elsewhere !!") w
      else if text_eq (str_to_char u.password) (p_word e pk)
      then login_accepted e fd u w
      else reply e fd login_fail (txt "Wrong pass !!") w
]
