-- ===== src/Server/RoomSync/Restart.antt =====
-- `mapRoom` after a restart.
use chat_service_socket_cpp.Common.{
  ℕ, ◌≡◌, refl, ◌∙◌, ap, arith, is_some, List, [], ◌∷◌, Option, some, none, Text, if◌then◌else◌,
  map, All,
}
use chat_service_socket_cpp.Common.Int.{ℤ, pos}
use chat_service_socket_cpp.Env.{Env}
use chat_service_socket_cpp.Memory.{str_to_char}
use chat_service_socket_cpp.Memory.Laws.{str_to_char-eq}
use chat_service_socket_cpp.Room.{Room, list_clients, set_room_id, new_room}
use chat_service_socket_cpp.Room.Laws.{
  HasId, get_room_id-HasId, set_room_id-HasId, set_capacity_lem, set_capacity-pos,
}
use chat_service_socket_cpp.StdMap.{IsSorted, find, insert}
use chat_service_socket_cpp.StdMap.Laws.{find-key, find-insert_sorted, insert-IsSorted}
use chat_service_socket_cpp.Database.Sql.{RoomRow, Tables}
use chat_service_socket_cpp.Database.RoomsDa.{
  room_key, read_room, map_rooms, map_room, select_all_rooms,
}
use chat_service_socket_cpp.Database.RoomRows.{find_room, IsRoomRow, find_room-key, All-find_room}
use chat_service_socket_cpp.Server.State.{World}
use chat_service_socket_cpp.Server.Poll.{init}
use chat_service_socket_cpp.Server.RoomSync.{InStep, AgreeRoom}

-- What the clients can tell of an entry: the id, the capacity and the members.
abbrev pub seen : Option (Text × Room) → Option (Text × ℕ × List ℤ)
seen none = none
seen (some (k, r)) = some (k, r.capacity, list_clients r)

-- The same with nobody in it.
abbrev pub emptied : Option (Text × Room) → Option (Text × ℕ × List ℤ)
emptied none = none
emptied (some (k, r)) = some (k, r.capacity, [])

-- The room of a row.
pub read_room_lem :
    (e : Env) (row : RoomRow)
    → IsRoomRow row
    → HasId row.room_id (read_room e row)
      × (row.capacity ≡ pos (read_room e row).capacity)
      × (list_clients (read_room e row) ≡ [])
unfolding read_room
read_room_lem e row h =
    let id : str_to_char row.room_id ≡ row.room_id = str_to_char-eq row.room_id h.no_nul in
    let room = set_room_id (str_to_char row.room_id) (new_room e) in
    let named : HasId row.room_id room =
      rw id (set_room_id-HasId row.room_id (new_room e) h.no_nul h.short) in
    let kept = set_capacity_lem e row.capacity room in
    (
      record { stored = rw kept.2 named.stored; short = named.short },
      unfold set_room_id in
          unfold new_room in ground (arith, h.capacity, set_capacity-pos e h.places room),
      unfold set_room_id in unfold new_room in unfold list_clients in ground (arith, kept),
    )

abbrev pub entry_of_row : Env → Option RoomRow → Option (Text × Room)
entry_of_row e none = none
entry_of_row e (some row) = some (row.room_id, read_room e row)

pub find-map_rooms :
    (e : Env) (t : Text) (rows : List RoomRow) (m : List (Text × Room))
    → All IsRoomRow rows
    → IsSorted room_key m
    → find room_key t (map_rooms (map (read_room e) rows) m) ≡ (
        if is_some (find room_key t m)
        then find room_key t m
        else entry_of_row e (find_room t rows))
unfolding map_rooms find_room
find-map_rooms e t [] m a s = ground arith
find-map_rooms e t (row ∷ rows) m a s = ground (
  arith,
  get_room_id-HasId row.room_id (read_room e row) (read_room_lem e row a.0).0,
  find-map_rooms e t rows (insert room_key row.room_id (read_room e row) m) a.1
      (insert-IsSorted room_key row.room_id (read_room e row) m s),
  find-insert_sorted room_key row.room_id (read_room e row) t m s,
)

-- Where the map of rooms and the table agree, a server that starts again from the table finds under
-- every id the same room as before, with the same capacity and without members.
pub find-map_room :
    (e : Env) (w : World) (t : Text)
    → InStep w
    → seen (find room_key t (map_room e w.db [])) ≡ emptied (find room_key t w.rooms)
unfolding map_room select_all_rooms find
find-map_room e w t s =
    ap seen (find-map_rooms e t w.db.rooms [] s.rows_fit tt)
    ∙ go (find room_key t w.rooms) (find_room t w.db.rooms) refl refl (s.agree t)
  where
    go :
        (o : Option (Text × Room)) (r : Option RoomRow)
        → find room_key t w.rooms ≡ o
        → find_room t w.db.rooms ≡ r
        → AgreeRoom t o r
        → seen (entry_of_row e r) ≡ emptied o
    go none none p q a = refl
    go none (some row) p q a = absurd a
    go (some x) none p q a = absurd a
    go (some (k, r)) (some row) p q a = ground (
      arith,
      find-key room_key t w.rooms k r p,
      find_room-key t w.db.rooms row q,
      a.capacity,
      read_room_lem e row (All-find_room IsRoomRow t w.db.rooms row s.rows_fit q),
    )

-- `Init` makes the map of rooms agree with the table.
pub init-InStep :
    (e : Env) (fd : ℤ) (db : Tables) → All IsRoomRow db.rooms → InStep (init e fd db).world
unfolding init map_room select_all_rooms find
init-InStep e fd db a = record {
  agree = λ t. rw (find-map_rooms e t db.rooms [] a tt) (go t (find_room t db.rooms) refl);
  rows_fit = a;
}
  where
    go :
        (t : Text) (r : Option RoomRow)
        → find_room t db.rooms ≡ r
        → AgreeRoom t (entry_of_row e r) r
    go t none q = tt
    go t (some row) q =
        let lem = read_room_lem e row (All-find_room IsRoomRow t db.rooms row a q) in
        record { named = rw (← find_room-key t db.rooms row q) lem.0; capacity = lem.1 }
