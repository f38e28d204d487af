-- ===== src/Server/RoomSync/Unterminated.antt =====
-- What becomes of a room whose id has no NUL behind it.
use chat_service_socket_cpp.Common.{
  ℕ, ◌+◌, ◌<◌, ◌≡◌, refl, true, false, arith, Text, text_eq, text_eq_iff, [], ◌∷◌, ◌++◌, none, some,
  length, is_some, if◌then◌else◌, ◌∙◌, length-append, txt,
}
use chat_service_socket_cpp.Common.Int.{ℤ, pos, is_neg}
use chat_service_socket_cpp.Env.{Env, IsBinary}
use chat_service_socket_cpp.Memory.{Memory, NoNul, Stored}
use chat_service_socket_cpp.Package.{Package, room_name, room_capacity, create_success}
use chat_service_socket_cpp.Room.{Room, room_id_size, make_room, copy_id, get_room_id}
use chat_service_socket_cpp.Room.Laws.{HasId, get_room_id-HasId, Stored-ext}
use chat_service_socket_cpp.StdMap.{find, insert}
use chat_service_socket_cpp.StdMap.Laws.{find-insert}
use chat_service_socket_cpp.Database.Sql.{RoomRow}
use chat_service_socket_cpp.Database.RoomsDa.{room_key, map_room, select_all_rooms}
use chat_service_socket_cpp.Database.Rows.{All-append}
use chat_service_socket_cpp.Database.RoomRows.{find_room, IsRoomRow, find_room-append}
use chat_service_socket_cpp.Server.State.{World, check_admin, reply, write}
use chat_service_socket_cpp.Server.Rooms.{add_room}
use chat_service_socket_cpp.Server.Sync.{Returns}
use chat_service_socket_cpp.Server.RoomSync.{InStep}
use chat_service_socket_cpp.Server.RoomSync.Keep.{no_row_of_room}
use chat_service_socket_cpp.Server.RoomSync.Rooms.{insert_room_lem, room_name-NoNul}
use chat_service_socket_cpp.Server.RoomSync.Restart.{find-map_rooms, entry_of_row}

-- The copied bytes run into what stands behind them.
Stored-copy_id_over :
    (o c : ℕ) (t : Text) (m : Memory)
    → NoNul t
    → m (o + length t) ≡ c
    → 0 < c
    → m (o + length t + 1) ≡ 0
    → Stored o (t ++ c ∷ []) (copy_id o t m)
unfolding copy_id
Stored-copy_id_over o c [] m h a p z = ground (arith, a, p, z)
Stored-copy_id_over o c (d ∷ t) m h a p z = (
  ground arith,
  h.0,
  Stored-ext (o + 1) (t ++ c ∷ []) (copy_id (o + 1) t m) (copy_id o (d ∷ t) m) (λ b q. ground arith)
      (Stored-copy_id_over (o + 1) c t m h.1 (ground (arith, a)) p (ground (arith, z))),
)

make_room-HasId_over :
    (e : Env) (t : Text) (c : ℤ) (b : ℕ)
    → NoNul t
    → length t + 1 < room_id_size
    → e.junk_room_id (length t) ≡ b
    → 0 < b
    → e.junk_room_id (length t + 1) ≡ 0
    → HasId (t ++ b ∷ []) (make_room e t c)
unfolding make_room
make_room-HasId_over e t c b h s a p z = record {
  stored = Stored-copy_id_over 0 b t e.junk_room_id h (ground (arith, a)) p (ground (arith, z));
  short = omega (arith, s, length-append {0} t (b ∷ []));
}

NoNul-append : (t : Text) (b : ℕ) → NoNul t → 0 < b → NoNul (t ++ b ∷ [])
NoNul-append t b h p = All-append (λ (x : ℕ). 0 < x) t b h p

longer-ne : (t : Text) (b : ℕ) → text_eq (t ++ b ∷ []) t ≡ false
unfolding text_eq
longer-ne [] b = refl
longer-ne (c ∷ t) b = ground (arith, longer-ne t b)

-- The world in which `addRoom` ends, but for the reply.
abbrev with_row : Text → Text → Room → World → World
with_row x y room w = record w {
  db = record w.db {
    rooms = w.db.rooms ++ record { room_id = y; capacity = pos room.capacity } ∷ [];
  };
  rooms = insert room_key x room w.rooms;
}

add_room-with_row :
    (e : Env) (fd : ℤ) (pk : Package) (w : World) (y : Text)
    → IsBinary e
    → check_admin e fd w ≡ true
    → get_room_id (make_room e (room_name e pk) (room_capacity e pk)) ≡ y
    → is_neg (room_capacity e pk) ≡ false
    → text_eq (room_name e pk) [] ≡ false
    → find room_key (room_name e pk) w.rooms ≡ none
    → find_room y w.db.rooms ≡ none
    → add_room e fd pk w
      ≡ some (
          reply e fd create_success
            (txt "You have created the room.")
            (with_row (room_name e pk) y (make_room e (room_name e pk) (room_capacity e pk)) w))
unfolding add_room
add_room-with_row e fd pk w y b admin id cap full new row =
    let room = make_room e (room_name e pk) (room_capacity e pk) in
    ground (arith, admin, cap, full, new, insert_room_lem e y room w.db b id row)

-- After a restart the table gives its rows.
restarted :
    (e : Env) (t y : Text) (room : Room) (w : World)
    → InStep w
    → IsRoomRow (record { room_id = y; capacity = pos room.capacity })
    → find_room y w.db.rooms ≡ none
    → find room_key t (
        map_room e
          (record w.db {
            rooms = w.db.rooms ++ record { room_id = y; capacity = pos room.capacity } ∷ [];
          })
          [])
      ≡ (if text_eq y t
          then entry_of_row e (some (record { room_id = y; capacity = pos room.capacity }))
          else entry_of_row e (find_room t w.db.rooms))
unfolding map_room select_all_rooms find
restarted e t y room w s fits new =
    let row : RoomRow = record { room_id = y; capacity = pos room.capacity } in
    find-map_rooms e t (w.db.rooms ++ row ∷ []) []
      (All-append IsRoomRow w.db.rooms row s.rows_fit fits) tt
    ∙ ground (arith, find_room-append t w.db.rooms row, text_eq_iff y t, new)

-- A room that the constructor leaves without a NUL is lost at a restart. In a server whose rooms agree
-- with the table, where the database compares texts exactly, let an administrator create a room of a
-- capacity that is not negative and of a new id of less than 19 bytes that is not empty, and let one
-- byte that is not 0 stand behind the copied id, and then a 0; let no room have the id with that byte.
-- Then `addRoom` ends without an exception, and the map has the room under its id; but after a restart
-- no room has this id, and one has the id with that byte.
pub add_room-lost :
    (e e' : Env) (fd : ℤ) (pk : Package) (w : World) (b : ℕ)
    → IsBinary e
    → InStep w
    → check_admin e fd w ≡ true
    → is_neg (room_capacity e pk) ≡ false
    → text_eq (room_name e pk) [] ≡ false
    → length (room_name e pk) + 1 < room_id_size
    → e.junk_room_id (length (room_name e pk)) ≡ b
    → 0 < b
    → e.junk_room_id (length (room_name e pk) + 1) ≡ 0
    → find room_key (room_name e pk) w.rooms ≡ none
    → find room_key (room_name e pk ++ b ∷ []) w.rooms ≡ none
    → Returns
        (λ v.
          (is_some (find room_key (room_name e pk) v.rooms) ≡ true)
          × (find room_key (room_name e pk) (map_room e' v.db []) ≡ none)
          × (is_some (find room_key (room_name e pk ++ b ∷ []) (map_room e' v.db [])) ≡ true))
        (add_room e fd pk w)
add_room-lost e e' fd pk w b binary s admin cap full short junk p z new new' =
    let x = room_name e pk in
    let y = x ++ b ∷ [] in
    let room = make_room e x (room_capacity e pk) in
    let named =
      make_room-HasId_over e x (room_capacity e pk) b (room_name-NoNul e pk) short junk p z in
    let row : find_room y w.db.rooms ≡ none = no_row_of_room w y s new' in
    let fits : IsRoomRow (record { room_id = y; capacity = pos room.capacity }) = record {
      no_nul = NoNul-append x b (room_name-NoNul e pk) p;
      short = named.short;
      places = room.capacity;
      capacity = refl;
    } in
    rw
      (add_room-with_row e fd pk w y binary admin (get_room_id-HasId y room named) cap full new row)
      (unfold reply in
        unfold write in
        (
          ground (arith, find-insert room_key x room x w.rooms new, text_eq_iff x x),
          ground
              (arith, restarted e' x y room w s fits row, longer-ne x b, no_row_of_room w x s new),
          ground (arith, restarted e' y y room w s fits row, text_eq_iff y y),
        ))
