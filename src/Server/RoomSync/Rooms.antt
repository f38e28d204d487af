-- ===== src/Server/RoomSync/Rooms.antt =====
-- The map of rooms and the table through the handlers for rooms.
use chat_service_socket_cpp.Common.{
  ◌-◌, ◌<◌, length, not, ◌≡◌, refl, ◌∙◌, ap, Text, text_eq_iff, [], ◌∷◌, ◌++◌, none, some, true,
  arith, is_some, Option-cases, inl, inr,
}
use chat_service_socket_cpp.Common.Int.{ℤ, pos}
use chat_service_socket_cpp.Env.{Env, IsBinary}
use chat_service_socket_cpp.Memory.{NoNul}
use chat_service_socket_cpp.Memory.Laws.{cstr-NoNul}
use chat_service_socket_cpp.Package.{Package, room_name, room_capacity, field, size_message}
use chat_service_socket_cpp.User.{User}
use chat_service_socket_cpp.Room.{
  Room, room_id_size, add, remove_user, make_room, set_room_id, set_capacity, get_room_id,
}
use chat_service_socket_cpp.Room.Laws.{
  HasId, add_lem, remove_user_lem, get_room_id-HasId, set_room_id-HasId, make_room-HasId,
  set_capacity_lem,
}
use chat_service_socket_cpp.StdMap.{find, insert, erase, assign}
use chat_service_socket_cpp.StdMap.Laws.{find-key, find-insert, find-erase}
use chat_service_socket_cpp.Database.Sql.{RoomRow, Tables, by_room_id, update, delete}
use chat_service_socket_cpp.Database.RoomsDa.{room_key}
use chat_service_socket_cpp.Database.Access
use chat_service_socket_cpp.Database.Rows.{All-select, All-append}
use chat_service_socket_cpp.Database.RoomRows.{
  find_room, IsRoomRow, find_room-update, find_room-delete, find_room-append, room_exists-find_room,
  All-update,
}
use chat_service_socket_cpp.Server.State.{World}
use chat_service_socket_cpp.Server.Offline.{leave_room}
use chat_service_socket_cpp.Server.Frame.{leave_room_frame}
use chat_service_socket_cpp.Server.Membership.{find-assign_cases, leave_room-rooms}
use chat_service_socket_cpp.Server.Rooms.{
  add_room, join_room, modify_room, delete_room, enter_state,
}
use chat_service_socket_cpp.Server.Invariant.{Ends}
use chat_service_socket_cpp.Server.RoomSync.{RoomsAgree, InStep}
use chat_service_socket_cpp.Server.RoomSync.Keep.{
  SameRooms-InStep, row_of_room, no_row_of_room, put_room, put_same_room,
}
use chat_service_socket_cpp.Server.RoomSync.Frame.{enter_state-SameRooms}

-- The room of an entry holds its id.
pub find-HasId :
    (w : World) (x k : Text) (r : Room)
    → InStep w
    → find room_key x w.rooms ≡ some (k, r)
    → (k ≡ x) × HasId x r
find-HasId w x k r s h = (find-key room_key x w.rooms k r h, (row_of_room w x k r s h).2.named)

-- The client that `add` admits or refuses: capacity and id stay.
pub add-same :
    (fd : ℤ) (r : Room) → ((add fd r).1.capacity ≡ r.capacity) × ((add fd r).1.room_id ≡ r.room_id)
add-same fd r = ground (arith, add_lem fd r)

pub assign-InStep :
    (w : World) (x k : Text) (r r' : Room)
    → InStep w
    → find room_key x w.rooms ≡ some (k, r)
    → r'.capacity ≡ r.capacity
    → r'.room_id ≡ r.room_id
    → InStep (record w { rooms = assign room_key k r' w.rooms })
assign-InStep w x k r r' s h c i =
    let key = find-key room_key x w.rooms k r h in
    put_same_room w x k r r' (assign room_key k r' w.rooms) s h
      (λ t.
        ground
          (arith, key, find-assign_cases k t r r' w (ap (λ j. find room_key j w.rooms) key ∙ h)))
      c i

pub leave_room-InStep :
    (e : Env) (fd : ℤ) (u : User) (w : World) → InStep w → InStep (leave_room e fd u w)
leave_room-InStep e fd u w s = elim (Option-cases (find room_key u.state.name w.rooms)) [
  | inl n ↦ unfold leave_room in rw (n, leave_room) s
  | inr ((k, room), n) ↦
      let (key, named) = find-HasId w u.state.name k room s n in
      let same = remove_user_lem fd room in
      rw (leave_room_frame e fd u w).1 (
        put_same_room w u.state.name k room (remove_user fd room) (leave_room e fd u w).rooms s n
          (λ t. leave_room-rooms e fd u w k room t n (rw key named)) same.1 same.2)
]

pub join_room-InStep :
    (e : Env) (fd : ℤ) (pk : Package) (w : World) → InStep w → InStep (join_room e fd pk w)
unfolding join_room
join_room-InStep e fd pk w s = elim (Option-cases (find room_key (room_name e pk) w.rooms)) [
  | inl n ↦ ground (arith, n, s)
  | inr ((k, room), n) ↦
      let x = room_name e pk in
      let joined : World = record w { rooms = assign room_key k (add fd room).1 w.rooms } in
      let same = add-same fd room in
      let after : InStep (enter_state e fd x joined) =
        SameRooms-InStep (enter_state e fd x joined) joined (enter_state-SameRooms e fd x joined)
          (assign-InStep w x k room (add fd room).1 s n same.0 same.1) in
      ground (arith, n, s, after)
]

pub room_name-NoNul : (e : Env) (pk : Package) → NoNul (room_name e pk)
unfolding room_name field
room_name-NoNul e pk = cstr-NoNul (size_message e - 0) 0 pk.message

-- A room without clients gets a capacity, in the map and in the table.
changed_room :
    (e : Env) (c : ℤ) (w : World) (x k : Text) (room : Room)
    → IsBinary e
    → NoNul x
    → InStep w
    → find room_key x w.rooms ≡ some (k, room)
    → let changed = set_capacity e c (set_room_id x room) in
      RoomsAgree (assign room_key k changed w.rooms) (
        update
          (by_room_id e (get_room_id changed))
          (λ row. record row { capacity = pos changed.capacity })
          w.db.rooms)
changed_room e c w x k room b plain s n =
    let changed = set_capacity e c (set_room_id x room) in
    let (row, found, same) = row_of_room w x k room s n in
    let key = find-key room_key x w.rooms k room n in
    let named : HasId x changed = record {
      stored =
          rw (set_capacity_lem e c (set_room_id x room)).2
            (set_room_id-HasId x room plain same.named.short).stored;
      short = same.named.short;
    } in
    let id : get_room_id changed ≡ x = get_room_id-HasId x changed named in
    let put = λ (r : RoomRow). record r { capacity = pos changed.capacity } in
    put_room x (some (k, changed)) (some (put row)) w.rooms (assign room_key k changed w.rooms)
      w.db.rooms (update (by_room_id e (get_room_id changed)) put w.db.rooms) s
      (λ t. ground (
        arith,
        key,
        find-assign_cases k t room changed w (ap (λ j. find room_key j w.rooms) key ∙ n),
      ))
      (λ t. ground (
        arith,
        id,
        found,
        text_eq_iff x t,
        find_room-update e (get_room_id changed) t put w.db.rooms b (λ r. refl),
      ))
      (record { named = named; capacity = refl })
      (All-update IsRoomRow (by_room_id e (get_room_id changed)) put w.db.rooms
        (λ r h. record {
          no_nul = h.no_nul;
          short = h.short;
          places = changed.capacity;
          capacity = refl;
        })
        s.rows_fit)

pub modify_room-InStep :
    (e : Env) (fd : ℤ) (pk : Package) (w : World)
    → IsBinary e
    → InStep w
    → InStep (modify_room e fd pk w)
unfolding modify_room Access.modify_room_db
modify_room-InStep e fd pk w b s = elim (Option-cases (find room_key (room_name e pk) w.rooms)) [
  | inl n ↦ ground (arith, n, s)
  | inr ((k, room), n) ↦
      let x = room_name e pk in
      let changed = set_capacity e (room_capacity e pk) (set_room_id x room) in
      let key = find-key room_key x w.rooms k room n in
      let after = changed_room e (room_capacity e pk) w x k room b (room_name-NoNul e pk) s n in
      ground (arith, n, s, after)
]

pub delete_room-InStep :
    (e : Env) (fd : ℤ) (pk : Package) (w : World)
    → IsBinary e
    → InStep w
    → InStep (delete_room e fd pk w)
unfolding delete_room Access.delete_room_db
delete_room-InStep e fd pk w b s = elim (Option-cases (find room_key (room_name e pk) w.rooms)) [
  | inl n ↦ ground (arith, n, s)
  | inr ((k, room), n) ↦
      let x = room_name e pk in
      let (key, named) = find-HasId w x k room s n in
      let id : get_room_id room ≡ x = get_room_id-HasId x room named in
      let after : RoomsAgree (erase room_key k w.rooms)
          (delete (by_room_id e (get_room_id room)) w.db.rooms) =
        put_room x none none w.rooms (erase room_key k w.rooms) w.db.rooms
          (delete (by_room_id e (get_room_id room)) w.db.rooms) s
          (λ t. ground (arith, key, find-erase room_key k t w.rooms))
          (λ t. ground (arith, id, find_room-delete e (get_room_id room) t w.db.rooms b)) tt
          (All-select IsRoomRow (λ r. not (by_room_id e (get_room_id room) r)) w.db.rooms
            s.rows_fit) in
      ground (arith, n, s, after)
]

-- The row that `addRoom` writes for a new id that fits.
pub insert_room_lem :
    (e : Env) (x : Text) (room : Room) (db : Tables)
    → IsBinary e
    → get_room_id room ≡ x
    → find_room x db.rooms ≡ none
    → Access.insert_room e room db
      ≡ some (record db {
        rooms = db.rooms ++ record { room_id = x; capacity = pos room.capacity } ∷ [];
      })
unfolding Access.insert_room
insert_room_lem e x room db b id new = ground (arith, id, new, room_exists-find_room e x db.rooms b)

pub new_room_agrees :
    (w : World) (x : Text) (room : Room)
    → InStep w
    → HasId x room
    → NoNul x
    → find room_key x w.rooms ≡ none
    → RoomsAgree
        (insert room_key x room w.rooms)
        (w.db.rooms ++ record { room_id = x; capacity = pos room.capacity } ∷ [])
new_room_agrees w x room s named plain n =
    let row : RoomRow = record { room_id = x; capacity = pos room.capacity } in
    put_room x (some (x, room)) (some row) w.rooms (insert room_key x room w.rooms) w.db.rooms
      (w.db.rooms ++ row ∷ []) s (λ t. find-insert room_key x room t w.rooms n)
      (λ t.
        ground (arith, find_room-append t w.db.rooms row, text_eq_iff x t, no_row_of_room w x s n))
      (record { named = named; capacity = refl })
      (All-append IsRoomRow w.db.rooms row s.rows_fit
        (record { no_nul = plain; short = named.short; places = room.capacity; capacity = refl }))

-- A fitting id that the map does not have can be written to the table.
pub add_room-row :
    (e : Env) (pk : Package) (w : World)
    → IsBinary e
    → length (room_name e pk) < room_id_size
    → e.junk_room_id (length (room_name e pk)) ≡ 0
    → InStep w
    → find room_key (room_name e pk) w.rooms ≡ none
    → is_some (Access.insert_room e (make_room e (room_name e pk) (room_capacity e pk)) w.db) ≡ true
add_room-row e pk w b short nul s n =
    let x = room_name e pk in
    let room = make_room e x (room_capacity e pk) in
    let id : get_room_id room ≡ x =
      get_room_id-HasId x room
        (make_room-HasId e x (room_capacity e pk) (room_name-NoNul e pk) short nul) in
    ground (arith, insert_room_lem e x room w.db b id (no_row_of_room w x s n))

pub add_room-InStep :
    (e : Env) (fd : ℤ) (pk : Package) (w : World)
    → IsBinary e
    → length (room_name e pk) < room_id_size
    → e.junk_room_id (length (room_name e pk)) ≡ 0
    → InStep w
    → Ends InStep (add_room e fd pk w)
unfolding add_room
add_room-InStep e fd pk w b short nul s =
    let x = room_name e pk in
    let room = make_room e x (room_capacity e pk) in
    elim (Option-cases (find room_key x w.rooms)) [
      | inr (found, n) ↦ ground (arith, n, s)
      | inl n ↦
          let named : HasId x room =
            make_room-HasId e x (room_capacity e pk) (room_name-NoNul e pk) short nul in
          let id : get_room_id room ≡ x = get_room_id-HasId x room named in
          ground (
            arith,
            n,
            s,
            insert_room_lem e x room w.db b id (no_row_of_room w x s n),
            new_room_agrees w x room s named (room_name-NoNul e pk) n,
          )
    ]
