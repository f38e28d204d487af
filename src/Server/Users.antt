-- ===== src/Server/Users.antt =====
-- The administrator's handlers for users: `AddUser`, `DeleteUser` and `handleModifyUser`.
use chat_service_socket_cpp.Common.{not, ◌||◌, none, some, [], txt, text_eq, if◌then◌else◌}
use chat_service_socket_cpp.Common.Int.{ℤ, pos, negsuc, int_eq, is_pos}
use chat_service_socket_cpp.Env.{Env}
use chat_service_socket_cpp.Package.{
  Package, create_success, create_fail, modify_success, modify_fail, delete_success, delete_fail,
  u_name, p_word, get_role,
}
use chat_service_socket_cpp.User.{
  new_user, named_user, user_key, set_username, set_password, set_role,
}
use chat_service_socket_cpp.StdMap.{find, insert, erase}
use chat_service_socket_cpp.Database.Access
use chat_service_socket_cpp.Server.State.{
  World, Run, reply, check_admin, getfd_username, replace_user,
}

-- Every role but 1 is taken as 2.
unfoldable pub admitted_role : ℤ → ℤ
admitted_role r = if int_eq r (pos 1) then pos 1 else pos 2

-- `AddUser`
unfoldable pub add_user : Env → ℤ → Package → World → Run
unfolding check_admin reply admitted_role
add_user e fd pk w =
    let name = u_name e pk in
    let us = set_role (admitted_role (get_role e pk)) (named_user name (p_word e pk)) in
    if not (check_admin e fd w)
    then some (reply e fd create_fail (txt "You do not have permission call this function") w)
    else elim (find user_key name w.users) [
      | some found ↦
          some (reply e fd create_fail (txt "You can't create this user because it is already") w)
      | none ↦
          if text_eq name [] || text_eq (p_word e pk) []
          then some (reply e fd create_fail (txt "Sorry. User name or pass word is null") w)
          else elim (Access.insert_user e us w.db) [
            | none ↦ none
            | some db ↦ some (
                reply e fd create_success (txt "Create success")
                  (record w { db = db; users = insert user_key us (negsuc 0) w.users }))
          ]
    ]

-- `DeleteUser`. The test of the role looks at the user that the handler made, not at the one found.
unfoldable pub delete_user : Env → ℤ → Package → World → Run
unfolding check_admin reply
delete_user e fd pk w =
    let us = set_username (u_name e pk) (new_user e) in
    if not (check_admin e fd w)
    then some (reply e fd delete_fail (txt "You do not have permission call this function") w)
    else elim (find user_key us.username w.users) [
      | none ↦ some (reply e fd delete_fail (txt "Sorry username does not exit !") w)
      | some (found, connection) ↦
          if is_pos connection
          then some
              (reply e fd delete_fail (txt "Sorry user is online. You can't delete this user !") w)
          else if int_eq us.role (pos 1)
          then some (
              reply e fd delete_fail
                (txt "Sorry you can't delete this user because it is admin account !") w)
          else if Access.have_offline_message e us w.db
          then some (
              reply e fd delete_fail
                (txt "Sorry you can't delete this user because it has offline message !") w)
          else elim (Access.delete_user_db e found w.db) [
            | none ↦ none
            | some db ↦ some (
                reply e fd delete_success (txt "Deleted successfully !")
                  (record w { db = db; users = erase user_key found.username w.users }))
          ]
    ]

-- `handleModifyUser`
unfoldable pub handle_modify_user : Env → ℤ → Package → World → Run
unfolding check_admin reply getfd_username replace_user admitted_role
handle_modify_user e fd pk w =
    let name = u_name e pk in
    let new_password = p_word e pk in
    let user_fd = getfd_username name w in
    if not (check_admin e fd w)
    then some (reply e fd modify_fail (txt "You do not have permission call this function") w)
    else elim (find user_key name w.users) [
      | none ↦ some (reply e fd modify_fail (txt "Username is not exist") w)
      | some (found, connection) ↦
          if text_eq new_password []
          then some
              (reply e fd modify_fail (txt "Sorry, can't modify user because password is empty") w)
          else if is_pos user_fd
          then some
              (reply e fd modify_fail (txt "User is online, You can not modify the information") w)
          else let modified =
              set_role (admitted_role (get_role e pk)) (set_password new_password found) in
            elim (Access.modify_user_db e modified w.db) [
              | none ↦ none
              | some db ↦ some (
                  reply e fd modify_success (txt "Modify successfully")
                    (replace_user modified user_fd (record w { db = db })))
            ]
    ]
