-- ===== src/Server/Sync/Keep.antt =====
-- Changes of the tables other than the users', and names in the map and in the table.
use chat_service_socket_cpp.Common.{
  ℕ, ◌≡◌, refl, subst, Text, List, [], ◌∷◌, ◌++◌, Option, none, some, true, arith, is_some, All,
  Bool-cases, inl, inr,
}
use chat_service_socket_cpp.Common.Int.{ℤ, pos}
use chat_service_socket_cpp.Env.{Env}
use chat_service_socket_cpp.User.{User, user_key}
use chat_service_socket_cpp.Room.{Room, get_room_id}
use chat_service_socket_cpp.StdMap.{find}
use chat_service_socket_cpp.Database.Sql.{
  Tables, UserRow, RoomRow, MessageRow, by_room_id, exists, role_exists,
}
use chat_service_socket_cpp.Database.UsersDa.{read_state}
use chat_service_socket_cpp.Database.Access
use chat_service_socket_cpp.Database.Rows.{find_row}
use chat_service_socket_cpp.Server.State.{World}
use chat_service_socket_cpp.Server.Frame.{SameState}
use chat_service_socket_cpp.Server.Sync.{SameUser, Agree, Refers, Synced, IsSynced}

-- Messages go, and nothing else of the tables changes.
pub Synced-messages :
    (n : ℕ) (users : List (User × ℤ)) (db : Tables) (ms : List MessageRow)
    → Synced n users db
    → All (Refers db.users) ms
    → Synced n users (record db { messages = ms })
unfolding role_exists
Synced-messages n users db ms s a = record {
  agree = s.agree;
  plain = s.plain;
  refer = a;
  admin = s.admin;
  user = s.user;
}

pub Synced-rooms :
    (n : ℕ) (users : List (User × ℤ)) (db : Tables) (rs : List RoomRow)
    → Synced n users db
    → Synced n users (record db { rooms = rs })
unfolding role_exists
Synced-rooms n users db rs s = record {
  agree = s.agree;
  plain = s.plain;
  refer = s.refer;
  admin = s.admin;
  user = s.user;
}

pub SameState-IsSynced : (n : ℕ) (v w : World) → SameState v w → IsSynced n w → IsSynced n v
SameState-IsSynced n v w k s = rw (k.users, k.db) s

-- A name of the map has its row.
pub row_of_name :
    (n : ℕ) (w : World) (t : Text)
    → IsSynced n w
    → is_some (find user_key t w.users) ≡ true
    → is_some (find_row t w.db.users) ≡ true
row_of_name n w t s h = go (find user_key t w.users) (find_row t w.db.users) (s.agree t) h
  where
    go :
        (o : Option (User × ℤ)) (r : Option UserRow)
        → Agree o r
        → is_some o ≡ true
        → is_some r ≡ true
    go none r a h = ground arith
    go (some x) none a h = absurd a
    go (some x) (some row) a h = refl

pub no_row_of_name :
    (n : ℕ) (w : World) (t : Text)
    → IsSynced n w
    → find user_key t w.users ≡ none
    → find_row t w.db.users ≡ none
no_row_of_name n w t s h =
    go (find_row t w.db.users) (subst (λ o. Agree o (find_row t w.db.users)) h (s.agree t))
  where
    go : (r : Option UserRow) → Agree none r → r ≡ none
    go none a = refl
    go (some row) a = absurd a

-- A new room touches no user.
pub Synced-insert_room :
    (n : ℕ) (e : Env) (users : List (User × ℤ)) (r : Room) (db db' : Tables)
    → Synced n users db
    → Access.insert_room e r db ≡ some db'
    → Synced n users db'
unfolding Access.insert_room
Synced-insert_room n e users r db db' s h =
    elim (Bool-cases (exists (by_room_id e (get_room_id r)) db.rooms)) [
      | inl found ↦ absurd (ground (arith, found))
      | inr new ↦
          let added =
            db.rooms ++ record { room_id = get_room_id r; capacity = pos r.capacity } ∷ [] in
          subst (λ d. Synced n users d) (ground (arith, new)) (Synced-rooms n users db added s)
    ]

-- The row of a new user.
pub SameUser-new :
    (u : User)
    → u.state ≡ record { type = pos 0; name = [] }
    → SameUser u
        (record { username = u.username; password = u.password; state = none; role = u.role })
unfolding read_state
SameUser-new u h = record { password = refl; role = refl; state = h }
