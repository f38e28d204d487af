-- ===== src/Server/Sync.antt =====
-- The relation between the map of users and the tables of the database, and what it asks of packages.
pub mod Users
pub mod Keep
pub mod Sessions
pub mod Chat
pub mod Admin
pub mod Accounts
pub mod Steps
pub mod Restart
pub mod Reachable
use chat_service_socket_cpp.Common.{
  ℕ, ◌≡◌, ◌<◌, Text, txt, List, Option, none, some, true, false, All, is_some, length,
}
use chat_service_socket_cpp.Common.Int.{ℤ, pos}
use chat_service_socket_cpp.Env.{Env}
use chat_service_socket_cpp.Package.{
  EType, Package, create_user, create_room, mess_send, set_sender, u_name, room_name, room_capacity,
}
use chat_service_socket_cpp.Memory.{str_to_char}
use chat_service_socket_cpp.Package.Fields.{FitsIn}
use chat_service_socket_cpp.User.{User, State, user_key}
use chat_service_socket_cpp.StdMap.{find}
use chat_service_socket_cpp.Database.Sql.{Tables, UserRow, MessageRow, role_exists}
use chat_service_socket_cpp.Database.UsersDa.{begins_with, read_state}
use chat_service_socket_cpp.Database.Access
use chat_service_socket_cpp.Room.{make_room}
use chat_service_socket_cpp.Database.Rows.{find_row, IsPlain}
use chat_service_socket_cpp.Server.State.{World, Run}

-- An entry of the map and a row of the table say the same of a user.
pub record SameUser (u : User) (row : UserRow) : Type 0 where
  pub password : u.password ≡ row.password
  pub role : u.role ≡ row.role
  pub state : u.state ≡ read_state row.state

abbrev pub Agree : Option (User × ℤ) → Option UserRow → Type 0
Agree none none = Unit
Agree none (some row) = ⊥
Agree (some x) none = ⊥
Agree (some (u, v)) (some row) = SameUser u row

-- Both users of a message are in the table.
abbrev pub Refers : List UserRow → MessageRow → Type 0
Refers rows m =
    (is_some (find_row m.sender rows) ≡ true) × (is_some (find_row m.receiver rows) ≡ true)

-- A username that every buffer and the state column can hold.
pub record IsName (n : ℕ) (t : Text) : Type 0 where
  pub plain : IsPlain t
  pub fits : FitsIn n t

-- `n` is SIZE_U.
pub record Synced (n : ℕ) (users : List (User × ℤ)) (db : Tables) : Type 0 where
  pub agree : (t : Text) → Agree (find user_key t users) (find_row t db.users)
  pub plain : (t : Text) → is_some (find user_key t users) ≡ true → IsName n t
  pub refer : All (Refers db.users) db.messages
  pub admin : role_exists (pos 1) db ≡ true
  pub user : role_exists (pos 2) db ≡ true

abbrev pub IsSynced : ℕ → World → Type 0
IsSynced n w = Synced n w.users w.db

-- The handler ends, and in a world for which `P` holds: no exception ends the process.
abbrev pub Returns : (World → Type 0) → Run → Type 0
Returns P none = ⊥
Returns P (some w) = P w

-- The columns take the message of a package, whoever signs it.
abbrev pub Savable : Env → Package → Type 0
Savable e pk =
    (t : Text)
    → let msg = mess_send e (set_sender e (str_to_char t) pk) in
      e.takes_message msg.mess msg.send_time ≡ true

-- What the packages that add a user or a room must bring to keep the two in step: a name that fits,
-- and that does not read like the state of a user in a room; a room id that the table does not have. What a
-- message must bring to be saved: a text and a time, once it is signed, that the columns take.
abbrev pub Admits : ℕ → Env → World → EType → Package → Type 0
Admits n e w EType.create_user pk =
    (begins_with (txt "ROOM ") (u_name e pk) ≡ false) × (length (u_name e pk) < n)
Admits n e w EType.create_room pk =
    is_some (Access.insert_room e (make_room e (room_name e pk) (room_capacity e pk)) w.db) ≡ true
Admits n e w EType.send_mess pk = Savable e pk
Admits n e w _ pk = Unit
