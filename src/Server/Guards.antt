-- ===== src/Server/Guards.antt =====
-- The guards of `analyzePackage` and of the administrator's handlers.
use chat_service_socket_cpp.Common.{
  ◌≡◌, refl, Bool, true, false, not, ◌&&◌, none, some, arith, Text, txt, text_eq, if◌then◌else◌,
  Option-cases, Bool-cases, inl, inr,
}
use chat_service_socket_cpp.Common.Int.{ℤ, pos, int_eq, is_pos}
use chat_service_socket_cpp.Env.{Env, IsBinary}
use chat_service_socket_cpp.Memory.{str_to_char}
use chat_service_socket_cpp.Package.{
  EType, Package, delete_success, loginn, code, has_type, u_name, p_word,
}
use chat_service_socket_cpp.User.{User, user_key, set_username, new_user}
use chat_service_socket_cpp.StdMap.{find, erase}
use chat_service_socket_cpp.StdMap.Laws.{find-key, find-erase}
use chat_service_socket_cpp.Database.Access
use chat_service_socket_cpp.Database.Sql.{delete, by_username}
use chat_service_socket_cpp.Database.Rows.{find_row, find_row-delete}
use chat_service_socket_cpp.Server.State.{World, Run, find_user_by_fd, checkfd, check_admin, reply}
use chat_service_socket_cpp.Server.Frame.{SameState}
use chat_service_socket_cpp.Server.Login.{login}
use chat_service_socket_cpp.Server.Rooms.{add_room, modify_room, delete_room}
use chat_service_socket_cpp.Server.Users.{add_user, delete_user, handle_modify_user}
use chat_service_socket_cpp.Server.Dispatch.{dispatch, analyze_package}
use chat_service_socket_cpp.Server.Sync.{Returns}

-- The name is that of a user who is not online, with the password of that user.
abbrev pub accepts : Env → Package → World → Bool
accepts e pk w = elim (find user_key (u_name e pk) w.users) [
  | none ↦ false
  | some (u, v) ↦ not (is_pos v) && text_eq (str_to_char u.password) (p_word e pk)
]

-- The packages of an administrator.
abbrev pub administers : EType → Bool
administers EType.create_user = true
administers EType.modify_user = true
administers EType.delete_user = true
administers EType.create_room = true
administers EType.modify_room = true
administers EType.delete_room = true
administers _ = false

abbrev pub Unchanged : World → Run → Type 0
Unchanged w = Returns (λ v. SameState v w)

same : (w : World) → SameState w w
same w = record { users = refl; rooms = refl; db = refl }

login-refused :
    (e : Env) (fd : ℤ) (pk : Package) (w : World)
    → accepts e pk w ≡ false
    → SameState (login e fd pk w) w
unfolding login
login-refused e fd pk w h = elim (Option-cases (find user_key (u_name e pk) w.users)) [
  | inl q ↦ ground (arith, q)
  | inr ((u, x), q) ↦ ground (arith, q, h)
]

dispatch-login :
    (e : Env) (fd : ℤ) (t : EType) (pk : Package) (w : World)
    → code t ≡ code loginn
    → accepts e pk w ≡ false
    → Unchanged w (dispatch e fd t pk w)
unfolding code dispatch
dispatch-login e fd EType.loginn pk w h a = login-refused e fd pk w a
dispatch-login e fd _ pk w h a = absurd (ground (arith, h))

-- A connection without a user changes neither users, rooms nor tables, whatever package it sends,
-- unless the package is a login with the password of a user who is not online.
pub unauthenticated_lem :
    (e : Env) (fd : ℤ) (pk : Package) (w : World)
    → checkfd fd w ≡ false
    → has_type loginn pk && accepts e pk w ≡ false
    → Unchanged w (analyze_package e fd pk w)
unfolding analyze_package
unauthenticated_lem e fd pk w h a = elim (Bool-cases (has_type loginn pk)) [
  | inl t ↦ ground (arith, h, a, t, dispatch-login e fd pk.type pk w (ground (arith, t)))
  | inr t ↦ ground (arith, h, t, same w)
]

-- If the user of a connection does not have role 1, a package that creates, modifies or deletes a user
-- or a room changes neither users, rooms nor tables, and no exception ends the process.
pub admin_only :
    (e : Env) (fd : ℤ) (t : EType) (pk : Package) (w : World)
    → int_eq (find_user_by_fd e fd w).role (pos 1) ≡ false
    → administers t ≡ true
    → Unchanged w (dispatch e fd t pk w)
unfolding dispatch add_user delete_user handle_modify_user add_room modify_room delete_room
admin_only e fd EType.create_user pk w h t = ground (arith, h, same w)
admin_only e fd EType.modify_user pk w h t = ground (arith, h, same w)
admin_only e fd EType.delete_user pk w h t = ground (arith, h, same w)
admin_only e fd EType.create_room pk w h t = ground (arith, h, same w)
admin_only e fd EType.modify_room pk w h t = ground (arith, h, same w)
admin_only e fd EType.delete_room pk w h t = ground (arith, h, same w)
admin_only e fd _ pk w h t = absurd (ground (arith, t))

-- What `DeleteUser` does for an administrator and an offline user without messages.
delete_user_lem :
    (e : Env) (fd : ℤ) (pk : Package) (w : World) (u : User) (v : ℤ)
    → IsBinary e
    → check_admin e fd w ≡ true
    → find user_key (u_name e pk) w.users ≡ some (u, v)
    → is_pos v ≡ false
    → Access.have_offline_message e u w.db ≡ false
    → delete_user e fd pk w
      ≡ some (
          reply e fd delete_success (txt "Deleted successfully !") (record w {
            db = record w.db { users = delete (by_username e (u_name e pk)) w.db.users };
            users = erase user_key (u_name e pk) w.users;
          }))
unfolding delete_user Access.have_offline_message Access.delete_user_db set_username new_user
delete_user_lem e fd pk w u v b admin found off unused =
    ground (arith, admin, found, off, unused, find-key user_key (u_name e pk) w.users u v found)

-- Where the database compares texts exactly, an administrator deletes every user who is offline and
-- has no messages, whatever the role: then neither the map nor the table knows that name, and they
-- know every other name as before.
pub delete_user-any_role :
    (e : Env) (fd : ℤ) (pk : Package) (w : World) (u : User) (v : ℤ) (t : Text)
    → IsBinary e
    → check_admin e fd w ≡ true
    → find user_key (u_name e pk) w.users ≡ some (u, v)
    → is_pos v ≡ false
    → Access.have_offline_message e u w.db ≡ false
    → Returns
        (λ x.
          (find user_key t x.users
            ≡ (if text_eq (u_name e pk) t then none else find user_key t w.users))
          × (find_row t x.db.users
              ≡ (if text_eq (u_name e pk) t then none else find_row t w.db.users)))
        (delete_user e fd pk w)
delete_user-any_role e fd pk w u v t b admin found off unused =
    rw (delete_user_lem e fd pk w u v b admin found off unused) (
      unfold reply in
      (find-erase user_key (u_name e pk) t w.users, find_row-delete e (u_name e pk) t w.db.users b))
