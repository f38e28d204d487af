-- ===== src/Server/Invariant/Loop.antt =====
-- The well-formedness of the maps through `Init` and `Execute`.
use chat_service_socket_cpp.Common.{
  ℕ, zero, suc, ◌+◌, ◌-◌, Text, List, [], ◌∷◌, Option, none, some, arith, if◌then◌else◌,
  Option-cases, inl, inr, All, map,
}
use chat_service_socket_cpp.Common.Int.{ℤ, negsuc}
use chat_service_socket_cpp.Env.{Env}
use chat_service_socket_cpp.Package.{offlineuser}
use chat_service_socket_cpp.User.{User, user_key}
use chat_service_socket_cpp.Room.{Room, get_room_id, new_room, set_room_id}
use chat_service_socket_cpp.Room.Laws
use chat_service_socket_cpp.Room.Laws.{set_room_id-IsValid, set_capacity-IsValid, new_room-IsValid}
use chat_service_socket_cpp.StdMap.{IsSorted, insert}
use chat_service_socket_cpp.StdMap.Laws.{Values-insert, insert-IsSorted}
use chat_service_socket_cpp.Memory.{str_to_char}
use chat_service_socket_cpp.Database.Sql.{Tables, RoomRow}
use chat_service_socket_cpp.Database.UsersDa.{map_user, map_users, select_all_users}
use chat_service_socket_cpp.Database.RoomsDa.{
  room_key, map_room, map_rooms, read_room, select_all_rooms,
}
use chat_service_socket_cpp.Server.State.{World}
use chat_service_socket_cpp.Server.Offline.{notification_offline}
use chat_service_socket_cpp.Server.Frame.{SameState-notification_offline}
use chat_service_socket_cpp.Server.Poll.{
  Server, Ready, ReadResult, reset, failed, ended, got, init, event_server, disconnect,
  handle_entry, handle_entries, execute_round, execute,
}
use chat_service_socket_cpp.Server.Invariant.{MapsValid, IsValid}
use chat_service_socket_cpp.Server.Invariant.Handlers.{analyze_package-IsValid}
use chat_service_socket_cpp.Server.Invariant.Sessions.{SameState-IsValid}
use chat_service_socket_cpp.Server.Invariant.Sessions.{change_state_user_off-IsValid}

-- The well-formedness of the world of a server that has not ended.
abbrev pub Serves : Option Server → Type 0
Serves none = Unit
Serves (some s) = IsValid s.world

pub disconnect-IsValid : (e : Env) (fd : ℤ) (w : World) → IsValid w → IsValid (disconnect e fd w)
unfolding disconnect
disconnect-IsValid e fd w v =
    let told = notification_offline e fd offlineuser w in
    ground (
      arith,
      v,
      change_state_user_off-IsValid e fd told
          (SameState-IsValid told w (SameState-notification_offline e fd offlineuser w) v),
    )

handle_entry-IsValid :
    (e : Env) (i : ℕ) (r : ReadResult) (s : Server)
    → IsValid s.world
    → Serves (handle_entry e i r s)
unfolding handle_entry
handle_entry-IsValid e i reset s v = disconnect-IsValid e (s.fds i) s.world v
handle_entry-IsValid e i failed s v = v
handle_entry-IsValid e i ended s v = disconnect-IsValid e (s.fds i) s.world v
handle_entry-IsValid e i (got pk) s v =
    ground (arith, analyze_package-IsValid e (s.fds i) pk s.world v)

handle_entries-IsValid :
    (e : Env) (r : Ready) (k i nready : ℕ) (s : Server)
    → IsValid s.world
    → Serves (handle_entries e r k i nready s)
unfolding handle_entries
handle_entries-IsValid e r zero i nready s v = v
handle_entries-IsValid e r (suc k) i nready s v =
    let skip = handle_entries-IsValid e r k (i + 1) nready s v in
    elim (Option-cases (handle_entry e i (r.reads i) s)) [
      | inl n ↦ ground (arith, n, skip)
      | inr (t, n) ↦
          let here = handle_entry-IsValid e i (r.reads i) s v in
          ground (arith, n, skip, here, handle_entries-IsValid e r k (i + 1) (nready - 1) t)
    ]

-- One round of the loop keeps the maps well-formed.
pub execute_round-IsValid :
    (e : Env) (r : Ready) (s : Server) → IsValid s.world → Serves (execute_round e r s)
unfolding execute_round event_server
execute_round-IsValid e r s v =
    let t = event_server r s in
    handle_entries-IsValid e r t.maxi 1 (if r.revents 0 then r.nready - 1 else r.nready) t
      (ground (arith, v))

map_users-IsSorted :
    (us : List User) (m : List (User × ℤ))
    → IsSorted user_key m
    → IsSorted user_key (map_users us m)
unfolding map_users
map_users-IsSorted [] m h = h
map_users-IsSorted (u ∷ us) m h =
    map_users-IsSorted us (insert user_key u (negsuc 0) m)
      (insert-IsSorted user_key u (negsuc 0) m h)

-- A room that comes from the database is empty.
read_room-IsValid : (e : Env) (row : RoomRow) → Laws.IsValid (read_room e row)
unfolding read_room
read_room-IsValid e row =
    set_capacity-IsValid e row.capacity (set_room_id (str_to_char row.room_id) (new_room e))
      (set_room_id-IsValid (str_to_char row.room_id) (new_room e) (new_room-IsValid e))

read_rooms-IsValid : (e : Env) (rows : List RoomRow) → All Laws.IsValid (map (read_room e) rows)
read_rooms-IsValid e [] = tt
read_rooms-IsValid e (row ∷ rows) = (read_room-IsValid e row, read_rooms-IsValid e rows)

map_rooms-IsValid :
    (us : List (User × ℤ)) (rs : List Room) (m : List (Text × Room))
    → All Laws.IsValid rs
    → MapsValid us m
    → MapsValid us (map_rooms rs m)
unfolding map_rooms
map_rooms-IsValid us [] m a v = v
map_rooms-IsValid us (r ∷ rs) m a v =
    map_rooms-IsValid us rs (insert room_key (get_room_id r) r m) a.1 (record {
      users_sorted = v.users_sorted;
      rooms_sorted = insert-IsSorted room_key (get_room_id r) r m v.rooms_sorted;
      rooms_valid = Values-insert room_key Laws.IsValid (get_room_id r) r m a.0 v.rooms_valid;
    })

pub init-IsValid : (e : Env) (fd : ℤ) (db : Tables) → IsValid (init e fd db).world
unfolding init map_user map_room select_all_rooms
init-IsValid e fd db =
    map_rooms-IsValid (map_users (select_all_users db) []) (select_all_rooms e db) []
      (read_rooms-IsValid e db.rooms)
      (record {
        users_sorted = map_users-IsSorted (select_all_users db) [] tt;
        rooms_sorted = tt;
        rooms_valid = tt;
      })

execute-IsValid :
    (rounds : List (Env × Ready)) (s : Server) → IsValid s.world → Serves (execute rounds s)
unfolding execute
execute-IsValid [] s v = v
execute-IsValid ((e, r) ∷ rounds) s v = elim (Option-cases (execute_round e r s)) [
  | inl n ↦ rw (n, execute) tt
  | inr (t, n) ↦
      rw (n, execute) (execute-IsValid rounds t (rw n at (execute_round-IsValid e r s v)))
]

-- Whatever the database holds at the start, whatever the clients send and however their connections
-- end, as long as the server runs: every username and room name has one entry, in the order of the
-- names, and every room holds distinct clients, at most as many as its capacity.
pub execute-init-IsValid :
    (e : Env) (fd : ℤ) (db : Tables) (rounds : List (Env × Ready))
    → Serves (execute rounds (init e fd db))
execute-init-IsValid e fd db rounds = execute-IsValid rounds (init e fd db) (init-IsValid e fd db)
