-- ===== src/Server/RoomSync.antt =====
-- The relation between the map of rooms and the table of rooms, and what it asks of packages.
pub mod Keep
pub mod Frame
pub mod Rooms
pub mod Steps
pub mod Restart
pub mod Execute
pub mod Leaving
pub mod Unterminated
use chat_service_socket_cpp.Common.{
  ℕ, ◌≡◌, ◌<◌, Text, List, [], Option, none, some, All, length, txt, false,
}
use chat_service_socket_cpp.Common.Int.{pos}
use chat_service_socket_cpp.Env.{Env}
use chat_service_socket_cpp.Package.{
  EType, Package, send_mess, create_user, create_room, u_name, room_name,
}
use chat_service_socket_cpp.Room.{Room, room_id_size}
use chat_service_socket_cpp.Room.Laws.{HasId}
use chat_service_socket_cpp.StdMap.{find}
use chat_service_socket_cpp.Database.Sql.{RoomRow}
use chat_service_socket_cpp.Database.UsersDa.{begins_with}
use chat_service_socket_cpp.Database.RoomsDa.{room_key}
use chat_service_socket_cpp.Database.RoomRows.{find_room, IsRoomRow}
use chat_service_socket_cpp.Server.State.{World}
use chat_service_socket_cpp.Server.Sync.{Savable}

-- An entry of the map and a row of the table say the same of a room, and the bytes of the room hold
-- its id.
pub record SameRoom (t : Text) (r : Room) (row : RoomRow) : Type 0 where
  pub named : HasId t r
  pub capacity : row.capacity ≡ pos r.capacity

abbrev pub AgreeRoom : Text → Option (Text × Room) → Option RoomRow → Type 0
AgreeRoom t none none = Unit
AgreeRoom t none (some row) = ⊥
AgreeRoom t (some x) none = ⊥
AgreeRoom t (some (k, r)) (some row) = SameRoom t r row

pub record RoomsAgree (rooms : List (Text × Room)) (rows : List RoomRow) : Type 0 where
  pub agree : (t : Text) → AgreeRoom t (find room_key t rooms) (find_room t rows)
  pub rows_fit : All IsRoomRow rows

abbrev pub InStep : World → Type 0
InStep w = RoomsAgree w.rooms w.db.rooms

-- What the packages that create a user or a room must bring: a username shorter than `n` that does not
-- read like the state of a user in a room; a room id that the 20 bytes hold with a NUL behind it. The
-- constructor of `Room` writes no NUL, so one must stand there already. And what a message must bring to
-- be saved.
abbrev pub Brings : ℕ → Env → EType → Package → Type 0
Brings n e EType.create_user pk =
    (begins_with (txt "ROOM ") (u_name e pk) ≡ false) × (length (u_name e pk) < n)
Brings n e EType.create_room pk =
    (length (room_name e pk) < room_id_size) × (e.junk_room_id (length (room_name e pk)) ≡ 0)
Brings n e EType.send_mess pk = Savable e pk
Brings n e _ pk = Unit
