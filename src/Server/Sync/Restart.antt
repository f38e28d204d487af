-- ===== src/Server/Sync/Restart.antt =====
-- `mapUser` after a restart.
use chat_service_socket_cpp.Common.{
  ℕ, ◌≡◌, refl, ◌∙◌, arith, is_some, List, [], ◌∷◌, Option, some, none, Text, text_eq_iff,
  if◌then◌else◌, map,
}
use chat_service_socket_cpp.Common.Int.{ℤ, negsuc}
use chat_service_socket_cpp.User.{User, user_key}
use chat_service_socket_cpp.StdMap.{IsSorted, find, insert}
use chat_service_socket_cpp.StdMap.Laws.{find-key, find-insert_sorted, insert-IsSorted}
use chat_service_socket_cpp.Database.Sql.{UserRow}
use chat_service_socket_cpp.Database.UsersDa.{read_user, map_users, map_user, select_all_users}
use chat_service_socket_cpp.Database.Rows.{find_row}
use chat_service_socket_cpp.Server.State.{World}
use chat_service_socket_cpp.Server.Sync.{IsSynced, Agree}

-- The entry of a user whose connection is gone.
abbrev pub offline : Option (User × ℤ) → Option (User × ℤ)
offline none = none
offline (some (u, v)) = some (u, negsuc 0)

abbrev pub entry_of_row : Option UserRow → Option (User × ℤ)
entry_of_row none = none
entry_of_row (some row) = some (read_user row, negsuc 0)

find_row-key :
    (t : Text) (rows : List UserRow) (row : UserRow) → find_row t rows ≡ some row → row.username ≡ t
unfolding find_row
find_row-key t [] row h = ground arith
find_row-key t (r ∷ rows) row h = ground (arith, text_eq_iff r.username t, find_row-key t rows row)

pub find-map_users :
    (t : Text) (rows : List UserRow) (m : List (User × ℤ))
    → IsSorted user_key m
    → find user_key t (map_users (map read_user rows) m)
      ≡ (if is_some (find user_key t m) then find user_key t m else entry_of_row (find_row t rows))
unfolding map_users find_row read_user
find-map_users t [] m s = ground arith
find-map_users t (row ∷ rows) m s = ground (
  arith,
  find-map_users t rows (insert user_key (read_user row) (negsuc 0) m)
      (insert-IsSorted user_key (read_user row) (negsuc 0) m s),
  find-insert_sorted user_key (read_user row) (negsuc 0) t m s,
)

-- Where the map of users and the tables agree, a server that starts again from the tables finds
-- under every name the same user as before, with the same password, role and state, and offline.
pub find-map_user :
    (n : ℕ) (w : World) (t : Text)
    → IsSynced n w
    → find user_key t (map_user w.db []) ≡ offline (find user_key t w.users)
unfolding map_user select_all_users find read_user
find-map_user n w t s =
    find-map_users t w.db.users [] tt
    ∙ go (find user_key t w.users) (find_row t w.db.users) refl refl (s.agree t)
  where
    go :
        (o : Option (User × ℤ)) (r : Option UserRow)
        → find user_key t w.users ≡ o
        → find_row t w.db.users ≡ r
        → Agree o r
        → entry_of_row r ≡ offline o
    go none none p q a = refl
    go none (some row) p q a = absurd a
    go (some x) none p q a = absurd a
    go (some (u, v)) (some row) p q a = ground (
      arith,
      find-key user_key t w.users u v p,
      find_row-key t w.db.users row q,
      a.password,
      a.role,
      a.state,
    )
