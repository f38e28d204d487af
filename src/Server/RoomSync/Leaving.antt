-- ===== src/Server/RoomSync/Leaving.antt =====
-- Rooms and the end of a connection, in a server whose rooms agree with the table.
use chat_service_socket_cpp.Common.{
  ◌≡◌, refl, ◌∙◌, ap, Text, text_eq, text_eq_iff, none, some, true, false, arith, if◌then◌else◌,
  Option-cases, inl, inr, Option, ◌&&◌, ltb, Bool, ◌-◌, subst, sym,
}
use chat_service_socket_cpp.Common.Int.{ℤ, pos, int_eq, int_eq_iff}
use chat_service_socket_cpp.Env.{Env}
use chat_service_socket_cpp.Package.{Package, room_name, offlineuser}
use chat_service_socket_cpp.User.{User, user_key, set_state}
use chat_service_socket_cpp.Room.{Room, remove_user, list_clients, find as holds}
use chat_service_socket_cpp.Room.Members.{remove, contains, remove-absent}
use chat_service_socket_cpp.StdMap.{find, first, IsSorted}
use chat_service_socket_cpp.Database.RoomsDa.{room_key}
use chat_service_socket_cpp.Server.State.{World, checkfd, replace_user}
use chat_service_socket_cpp.Server.Offline.{leave_room, change_state_user_off, notification_offline}
use chat_service_socket_cpp.Server.Poll.{disconnect}
use chat_service_socket_cpp.Server.Frame.{SameState-notification_offline}
use chat_service_socket_cpp.Server.Membership.{leave_room-rooms}
use chat_service_socket_cpp.Server.Rooms.{join_room, enter_state}
use chat_service_socket_cpp.StdMap.Scan.{first-replace}
use chat_service_socket_cpp.Room.Laws.{add_lem, remove_user_lem, find-contains}
use chat_service_socket_cpp.Server.Membership.{join_room-accepted}
use chat_service_socket_cpp.Server.RoomSync.{InStep}
use chat_service_socket_cpp.Server.RoomSync.Keep.{SameRooms-InStep}
use chat_service_socket_cpp.Server.RoomSync.Frame.{SameState-SameRooms}
use chat_service_socket_cpp.Server.RoomSync.Rooms.{find-HasId, join_room-InStep}

-- The entry of a room without the client.
abbrev pub without : ℤ → Option (Text × Room) → Option (Text × Room)
without fd none = none
without fd (some (id, room)) = some (id, remove_user fd room)

pub leave_room-without :
    (e : Env) (fd : ℤ) (u : User) (w : World) (t : Text)
    → InStep w
    → find room_key t (leave_room e fd u w).rooms ≡ (
        if text_eq u.state.name t
        then without fd (find room_key t w.rooms)
        else find room_key t w.rooms)
leave_room-without e fd u w t s = elim (Option-cases (find room_key u.state.name w.rooms)) [
  | inl n ↦ unfold leave_room in ground (arith, n, text_eq_iff u.state.name t)
  | inr ((k, room), n) ↦
      let (key, named) = find-HasId w u.state.name k room s n in
      ground
        (arith, n, leave_room-rooms e fd u w k room t n (rw key named), text_eq_iff u.state.name t)
]

change_state_user_off-without :
    (e : Env) (fd : ℤ) (w : World) (u : User) (v : ℤ) (t : Text)
    → InStep w
    → first user_key (λ v. int_eq v fd) w.users ≡ some (u, v)
    → find room_key t (change_state_user_off e fd w).1.rooms ≡ (
        if int_eq u.state.type (pos 2) && text_eq u.state.name t
        then without fd (find room_key t w.rooms)
        else find room_key t w.rooms)
unfolding change_state_user_off replace_user
change_state_user_off-without e fd w u v t s here =
    ground (arith, here, leave_room-without e fd u w t s)

disconnect-rooms :
    (e : Env) (fd : ℤ) (w : World)
    → checkfd fd w ≡ true
    → (disconnect e fd w).rooms
      ≡ (change_state_user_off e fd (notification_offline e fd offlineuser w)).1.rooms
unfolding disconnect
disconnect-rooms e fd w h = rw h refl

-- The entry of every room at the end of a connection.
pub disconnect-without :
    (e : Env) (fd : ℤ) (w : World) (u : User) (v : ℤ) (t : Text)
    → InStep w
    → first user_key (λ v. int_eq v fd) w.users ≡ some (u, v)
    → find room_key t (disconnect e fd w).rooms ≡ (
        if int_eq u.state.type (pos 2) && text_eq u.state.name t
        then without fd (find room_key t w.rooms)
        else find room_key t w.rooms)
disconnect-without e fd w u v t s here =
    let told = notification_offline e fd offlineuser w in
    let same = SameState-notification_offline e fd offlineuser w in
    let known : checkfd fd w ≡ true = unfold checkfd in rw here refl in
    let there : first user_key (λ v. int_eq v fd) told.users ≡ some (u, v) = rw same.users here in
    let step : InStep told = SameRooms-InStep told w (SameState-SameRooms told w same) s in
    ap (find room_key t) (disconnect-rooms e fd w known)
    ∙ cc (same.rooms, change_state_user_off-without e fd told u v t step there)

-- The entry of a room, as a client leaves it: the list of clients loses the first occurrence of the
-- client, the count falls if there was one, and capacity and id stay.
abbrev pub Left : ℤ → Option (Text × Room) → Option (Text × Room) → Type 0
Left fd none after = after ≡ none
Left fd (some (id, room)) after =
    (room' : Room) × (after ≡ some (id, room'))
    × (list_clients room' ≡ remove fd (list_clients room))
    × (room'.available_users ≡ (
        if contains fd (list_clients room) then room.available_users - 1 else room.available_users))
    × (room'.capacity ≡ room.capacity)
    × (room'.room_id ≡ room.room_id)

abbrev pub LeftIf : Bool → ℤ → Option (Text × Room) → Option (Text × Room) → Type 0
LeftIf true fd before after = Left fd before after
LeftIf false fd before after = after ≡ before

without-Left : (fd : ℤ) (o : Option (Text × Room)) → Left fd o (without fd o)
without-Left fd none = refl
without-Left fd (some (id, room)) =
    let taken = remove_user_lem fd room in
    let (clients, capacity, named, count) = taken in
    (
      remove_user fd room,
      refl,
      clients ∙ ground (arith, find-contains fd room, remove-absent fd (list_clients room)),
      count ∙ ground (arith, find-contains fd room),
      capacity,
      named,
    )

LeftIf-if :
    (b : Bool) (fd : ℤ) (before after : Option (Text × Room))
    → after ≡ (if b then without fd before else before)
    → LeftIf b fd before after
LeftIf-if true fd before after h = subst (Left fd before) (sym h) (without-Left fd before)
LeftIf-if false fd before after h = h

-- At the end of the connection of a client that has a user, in a server whose rooms agree with the
-- table: if the user's state is a room, the client is gone from the list of that room, the first time
-- that it stood there, the count of the room falls if it did, and the rest of the room and every other
-- room are as they were; with any other state every room is.
pub disconnect-LeftIf :
    (e : Env) (fd : ℤ) (w : World) (u : User) (v : ℤ) (t : Text)
    → InStep w
    → first user_key (λ v. int_eq v fd) w.users ≡ some (u, v)
    → LeftIf
        (int_eq u.state.type (pos 2) && text_eq u.state.name t)
        fd
        (find room_key t w.rooms)
        (find room_key t (disconnect e fd w).rooms)
disconnect-LeftIf e fd w u v t s here =
    LeftIf-if (int_eq u.state.type (pos 2) && text_eq u.state.name t) fd (find room_key t w.rooms)
      (find room_key t (disconnect e fd w).rooms) (disconnect-without e fd w u v t s here)

-- The client that joins a room is the first user of its connection still, with the room as the state.
join_room-first :
    (e : Env) (fd : ℤ) (pk : Package) (w : World) (u : User) (v : ℤ) (id : Text) (room : Room)
    → IsSorted user_key w.users
    → first user_key (λ v. int_eq v fd) w.users ≡ some (u, v)
    → find room_key (room_name e pk) w.rooms ≡ some (id, room)
    → ltb room.available_users room.capacity ≡ true
    → holds fd room ≡ false
    → first user_key (λ v. int_eq v fd) (join_room e fd pk w).users
      ≡ some (set_state (pos 2) (room_name e pk) u, fd)
unfolding join_room enter_state replace_user set_state
join_room-first e fd pk w u v id room sorted here there place new =
    let u' = set_state (pos 2) (room_name e pk) u in
    ground (
      arith,
      there,
      here,
      add_lem fd room,
      place,
      new,
      first-replace user_key (λ v. int_eq v fd) w.users u u' v fd sorted here refl
          ((int_eq_iff fd fd).1 refl),
    )

-- A client that is in one room and joins another is not taken out of the first: in a server whose
-- users are sorted and whose rooms agree with the table, let a client that has a user be in the room
-- `x` and join another room, which has a place and does not hold it. Then the room `x` still holds
-- the client, and so it does after the connection has ended.
pub disconnect-join_room :
    (e : Env) (fd : ℤ) (pk : Package) (w : World) (u : User) (v : ℤ) (x k id : Text)
    (room other : Room)
    → IsSorted user_key w.users
    → InStep w
    → first user_key (λ v. int_eq v fd) w.users ≡ some (u, v)
    → find room_key x w.rooms ≡ some (k, room)
    → holds fd room ≡ true
    → text_eq (room_name e pk) x ≡ false
    → find room_key (room_name e pk) w.rooms ≡ some (id, other)
    → ltb other.available_users other.capacity ≡ true
    → holds fd other ≡ false
    → (find room_key x (join_room e fd pk w).rooms ≡ some (k, room))
      × (find room_key x (disconnect e fd (join_room e fd pk w)).rooms ≡ some (k, room))
disconnect-join_room e fd pk w u v x k id room other sorted s here there inside apart free place
      new =
    let u' = set_state (pos 2) (room_name e pk) u in
    let joined = join_room e fd pk w in
    let kept : find room_key x joined.rooms ≡ some (k, room) =
      ground
        (arith, apart, there, join_room-accepted e fd pk w u v id other x free here place new) in
    (
      kept,
      unfold set_state in
          ground (
            arith,
            apart,
            kept,
            disconnect-without e fd joined u' fd x (join_room-InStep e fd pk w s)
                (join_room-first e fd pk w u v id other sorted here free place new),
          ),
    )
