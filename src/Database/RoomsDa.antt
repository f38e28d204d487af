-- ===== src/Database/RoomsDa.antt =====
-- server/responsibility/roomsDA.cpp, and the functions of databaseAccess.cpp that call it.
use chat_service_socket_cpp.Common.{Option, List, [], ◌∷◌, map, Text}
use chat_service_socket_cpp.Common.Int.{pos}
use chat_service_socket_cpp.Env.{Env}
use chat_service_socket_cpp.Memory.{str_to_char}
use chat_service_socket_cpp.Room.{Room, new_room, set_room_id, set_capacity, get_room_id}
use chat_service_socket_cpp.StdMap.{insert}
use chat_service_socket_cpp.Database.Sql
use chat_service_socket_cpp.Database.Sql.{Tables, RoomRow}

-- The key of a `map<string, Room>`.
abbrev pub room_key : Text → Text
room_key t = t

unfoldable pub read_room : Env → RoomRow → Room
unfolding str_to_char
read_room e row = set_capacity e row.capacity (set_room_id (str_to_char row.room_id) (new_room e))

-- `roomsDA::selectAllRooms`
unfoldable pub select_all_rooms : Env → Tables → List Room
unfolding read_room
select_all_rooms e db = map (read_room e) db.rooms

-- `roomsDA::insertRoom`
unfoldable pub insert_room : Env → Room → Tables → Option Tables
unfolding Sql.insert_room
insert_room e r db = Sql.insert_room e (get_room_id r) (pos r.capacity) db

-- `roomsDA::modifyRoom`
unfoldable pub modify_room : Env → Room → Tables → Tables
unfolding Sql.modify_room
modify_room e r db = Sql.modify_room e (get_room_id r) (pos r.capacity) db

-- `roomsDA::deleteRoom`
unfoldable pub delete_room : Env → Room → Tables → Tables
unfolding Sql.delete_room
delete_room e r db = Sql.delete_room e (get_room_id r) db

-- `mapRoom`: every room of the table, empty.
unfoldable pub map_rooms : List Room → List (Text × Room) → List (Text × Room)
map_rooms [] m = m
map_rooms (r ∷ rs) m = map_rooms rs (insert room_key (get_room_id r) r m)

unfoldable pub map_room : Env → Tables → List (Text × Room) → List (Text × Room)
unfolding map_rooms select_all_rooms
map_room e db m = map_rooms (select_all_rooms e db) m
