-- ===== src/Database/UsersDa.antt =====
-- server/responsibility/usersDA.cpp, and the functions of databaseAccess.cpp that call it.
use chat_service_socket_cpp.Common.{
  ℕ, zero, suc, Bool, true, false, Option, none, some, List, [], ◌∷◌, map, Text, txt, ◌==◌,
  if◌then◌else◌,
}
use chat_service_socket_cpp.Common.Int.{ℤ, pos, negsuc}
use chat_service_socket_cpp.Env.{Env}
use chat_service_socket_cpp.User.{User, State, user_key}
use chat_service_socket_cpp.StdMap.{insert}
use chat_service_socket_cpp.Database.Sql
use chat_service_socket_cpp.Database.Sql.{Tables, UserRow}

-- `state.find(p) == 0`
unfoldable pub begins_with : Text → Text → Bool
begins_with [] t = true
begins_with (a ∷ p) [] = false
begins_with (a ∷ p) (b ∷ t) = let rest = begins_with p t in if a == b then rest else false

-- `state.substr(n)`, for a text of at least `n` bytes.
unfoldable pub substr : ℕ → Text → Text
substr zero t = t
substr (suc n) [] = []
substr (suc n) (c ∷ t) = substr n t

-- The column `state` as the state of a user. `getString` gives "" for a NULL.
unfoldable pub read_state : Option Text → State
unfolding begins_with substr txt
read_state none = record { type = pos 0; name = [] }
read_state (some []) = record { type = pos 0; name = [] }
read_state (some (c ∷ t)) =
    if begins_with (txt "ROOM ") (c ∷ t)
    then record { type = pos 2; name = substr 5 (c ∷ t) }
    else record { type = pos 1; name = c ∷ t }

unfoldable pub read_user : UserRow → User
read_user row = record {
  username = row.username;
  password = row.password;
  state = read_state row.state;
  role = row.role;
}

-- `usersDA::selectAllUsers`
unfoldable pub select_all_users : Tables → List User
unfolding read_user
select_all_users db = map read_user db.users

-- `usersDA::findUserWithName`, as many rows as `countUserWithName` told.
unfoldable pub find_user_with_name : Env → Text → Tables → List User
find_user_with_name e name db = map read_user (Sql.find_user_with_name e name db)

-- `usersDA::countUserWithName`
unfoldable pub count_user_with_name : Env → Text → Tables → ℕ
count_user_with_name e name db = Sql.count_user_with_name e name db

-- `usersDA::updateState`
unfoldable pub update_state : Env → User → Tables → Tables
unfolding Sql.set_state
update_state e u db = Sql.set_state e u.username u.state.type u.state.name db

-- `usersDA::clearState`
unfoldable pub clear_state : Env → User → Tables → Tables
unfolding Sql.clear_state
clear_state e u db = Sql.clear_state e u.username db

-- `usersDA::validateLogin`
unfoldable pub validate_login : Env → Text → Text → Tables → Bool
validate_login e username password db = Sql.validate_login e username password db

-- `usersDA::insertUser`
unfoldable pub insert_user : Env → User → Tables → Option Tables
unfolding Sql.insert_user
insert_user e u db = Sql.insert_user e u.username u.password u.role db

-- `usersDA::modifyUser`
unfoldable pub modify_user : Env → User → Tables → Option Tables
unfolding Sql.modify_user
modify_user e u db = Sql.modify_user e u.username u.password u.role db

-- `usersDA::deleteUser`
unfoldable pub delete_user : Env → User → Tables → Option Tables
unfolding Sql.delete_user
delete_user e u db = Sql.delete_user e u.username db

-- `mapUser`: every user of the table, offline.
unfoldable pub map_users : List User → List (User × ℤ) → List (User × ℤ)
map_users [] m = m
map_users (u ∷ us) m = map_users us (insert user_key u (negsuc 0) m)

unfoldable pub map_user : Tables → List (User × ℤ) → List (User × ℤ)
unfolding map_users select_all_users
map_user db m = map_users (select_all_users db) m
