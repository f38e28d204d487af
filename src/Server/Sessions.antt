-- ===== src/Server/Sessions.antt =====
-- Logins: what `Login` makes of the map of users, and the accounts that can log in.
use chat_service_socket_cpp.Common.{
  ℕ, List, ◌∷◌, ◌++◌, ◌-◌, ◌≡◌, true, false, arith, some, none, [], Text, txt, text_eq, text_eq_iff,
  if◌then◌else◌, Option-cases, inl, inr,
}
use chat_service_socket_cpp.Common.Int.{ℤ, pos, negsuc, is_neg, is_pos}
use chat_service_socket_cpp.Env.{Env}
use chat_service_socket_cpp.Memory.{str_to_char, NoNul}
use chat_service_socket_cpp.Memory.Laws.{str_to_char-eq, cstr-NoNul}
use chat_service_socket_cpp.Package.{
  Package, create_success, field, size_message, p_word_at, onlineuser, u_name, p_word, get_role,
}
use chat_service_socket_cpp.User.{User, user_key, named_user, set_role}
use chat_service_socket_cpp.Room.{Room, add}
use chat_service_socket_cpp.StdMap.{find, insert, assign}
use chat_service_socket_cpp.StdMap.Laws.{find-key, find-insert, find-assign, find-assign-none}
use chat_service_socket_cpp.Database.RoomsDa.{room_key}
use chat_service_socket_cpp.Database.Sql.{user_exists}
use chat_service_socket_cpp.Server.State.{World, write, reply, check_admin}
use chat_service_socket_cpp.Server.Offline.{handle_offline_message}
use chat_service_socket_cpp.Server.Frame.{
  SameState-notification_offline, handle_offline_message_frame,
}
use chat_service_socket_cpp.Server.Login.{login, login_accepted, login_package, rejoin}
use chat_service_socket_cpp.Server.Users.{add_user, admitted_role}
use chat_service_socket_cpp.Server.Guards.{accepts}
use chat_service_socket_cpp.Server.Sync.{IsSynced, Returns}
use chat_service_socket_cpp.Server.Sync.Accounts.{
  insert_user-taken, role_exists-admitted_role, new_row,
}

rejoin-users : (fd : ℤ) (u : User) (w : World) → (rejoin fd u w).1.users ≡ w.users
unfolding rejoin
rejoin-users fd u w = elim (Option-cases (find room_key u.state.name w.rooms)) [
  | inl q ↦ ground (arith, q)
  | inr ((id, room), q) ↦ ground (arith, q)
]

login_accepted-users :
    (e : Env) (fd : ℤ) (u : User) (w : World)
    → (login_accepted e fd u w).users ≡ assign user_key u.username fd w.users
unfolding login_accepted
login_accepted-users e fd u w =
    let online : World = record w { users = assign user_key u.username fd w.users } in
    let answered = write fd (login_package e u) (rejoin fd u online).1 in
    let told = handle_offline_message e fd answered in
    let kept : told.users ≡ (rejoin fd u online).1.users =
      unfold write in (handle_offline_message_frame e fd answered).0 in
    ground (
      arith,
      rejoin-users fd u online,
      kept,
      (SameState-notification_offline e fd onlineuser told).users,
    )

find-assign_cases :
    (x t : Text) (m : List (User × ℤ)) (u : User) (v fd : ℤ)
    → find user_key x m ≡ some (u, v)
    → find user_key t (assign user_key x fd m)
      ≡ (if text_eq x t then some (u, fd) else find user_key t m)
find-assign_cases x t m u v fd h = elim (Option-cases (find user_key t m)) [
  | inl q ↦ ground (arith, q, h, find-assign-none user_key x t fd m q, text_eq_iff x t)
  | inr ((k, y), q) ↦ ground (arith, q, h, find-assign user_key x t fd m k y q, text_eq_iff x t)
]

-- A login with the password of a user who is not online gives that user the connection and leaves
-- every other user as it was, also one who has the same connection already.
pub login-users :
    (e : Env) (fd : ℤ) (pk : Package) (w : World) (u : User) (v : ℤ) (t : Text)
    → find user_key (u_name e pk) w.users ≡ some (u, v)
    → is_pos v ≡ false
    → text_eq (str_to_char u.password) (p_word e pk) ≡ true
    → find user_key t (login e fd pk w).users
      ≡ (if text_eq (u_name e pk) t then some (u, fd) else find user_key t w.users)
unfolding login
login-users e fd pk w u v t found off right =
    let key : u.username ≡ u_name e pk = find-key user_key (u_name e pk) w.users u v found in
    ground (
      arith,
      found,
      off,
      right,
      key,
      login_accepted-users e fd u w,
      find-assign_cases (u_name e pk) t w.users u v fd found,
    )

-- If a user who is not online has a room as the state, and `add` refuses the connection there, a
-- login with the right password puts the user online and sends nothing.
pub login-no_reply :
    (e : Env) (fd : ℤ) (pk : Package) (w : World) (u : User) (v : ℤ) (id : Text) (room : Room)
    → find user_key (u_name e pk) w.users ≡ some (u, v)
    → is_pos v ≡ false
    → text_eq (str_to_char u.password) (p_word e pk) ≡ true
    → u.state.type ≡ pos 2
    → find room_key u.state.name w.rooms ≡ some (id, room)
    → is_neg (add fd room).0 ≡ true
    → ((login e fd pk w).out ≡ w.out)
      × (find user_key (u_name e pk) (login e fd pk w).users ≡ some (u, fd))
unfolding login login_accepted rejoin
login-no_reply e fd pk w u v id room found off right at there full =
    let key : u.username ≡ u_name e pk = find-key user_key (u_name e pk) w.users u v found in
    ground (
      arith,
      found,
      off,
      right,
      key,
      at,
      there,
      full,
      find-assign user_key (u_name e pk) (u_name e pk) fd w.users u v found,
      text_eq_iff (u_name e pk) (u_name e pk),
    )

p_word-NoNul : (e : Env) (pk : Package) → NoNul (p_word e pk)
unfolding p_word field
p_word-NoNul e pk = cstr-NoNul (size_message e - p_word_at e) (p_word_at e) pk.message

-- The user that `AddUser` makes of a package, and where it ends.
abbrev made_user : Env → Package → User
made_user e pk = set_role (admitted_role (get_role e pk)) (named_user (u_name e pk) (p_word e pk))

add_user_lem :
    (n : ℕ) (e : Env) (fd : ℤ) (pk : Package) (w : World)
    → user_exists e (u_name e pk) w.db ≡ false
    → IsSynced n w
    → check_admin e fd w ≡ true
    → find user_key (u_name e pk) w.users ≡ none
    → text_eq (u_name e pk) [] ≡ false
    → text_eq (p_word e pk) [] ≡ false
    → add_user e fd pk w
      ≡ some (
          reply e fd create_success (txt "Create success") (record w {
            db = record w.db { users = w.db.users ++ new_row (made_user e pk) ∷ [] };
            users = insert user_key (made_user e pk) (negsuc 0) w.users;
          }))
unfolding add_user set_role named_user
add_user_lem n e fd pk w b s admin new name password = ground (
  arith,
  admin,
  new,
  name,
  password,
  insert_user-taken e (made_user e pk) w.db b
      (role_exists-admitted_role n w.users w.db (get_role e pk) s),
)

-- An account that an administrator creates can log in. Where the map of users and the tables agree
-- and the database finds no user of the name, `AddUser` for a new name and a password, neither of them
-- empty, ends in a world where the user of that name has the password of the package, role 1 or 2 and
-- no state, is offline, and would be let in by a login with the same package; every other user is as
-- it was.
pub add_user-accepted :
    (n : ℕ) (e : Env) (fd : ℤ) (pk : Package) (w : World) (t : Text)
    → user_exists e (u_name e pk) w.db ≡ false
    → IsSynced n w
    → check_admin e fd w ≡ true
    → find user_key (u_name e pk) w.users ≡ none
    → text_eq (u_name e pk) [] ≡ false
    → text_eq (p_word e pk) [] ≡ false
    → Returns
        (λ x.
          (find user_key t x.users ≡ (
            if text_eq (u_name e pk) t
            then some (
              set_role (admitted_role (get_role e pk)) (named_user (u_name e pk) (p_word e pk)),
              negsuc 0,
            )
            else find user_key t w.users))
          × (accepts e pk x ≡ true))
        (add_user e fd pk w)
unfolding set_role named_user reply write
add_user-accepted n e fd pk w t b s admin new name password =
    let added = λ (k : Text). find-insert user_key (made_user e pk) (negsuc 0) k w.users new in
    rw (add_user_lem n e fd pk w b s admin new name password) (
      added t,
      ground (
        arith,
        added (u_name e pk),
        str_to_char-eq (p_word e pk) (p_word-NoNul e pk),
        text_eq_iff (u_name e pk) (u_name e pk),
        text_eq_iff (p_word e pk) (p_word e pk),
      ),
    )
