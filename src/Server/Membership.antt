-- ===== src/Server/Membership.antt =====
-- Rooms and their members, as `JoinRoom` and `LeaveRoom` change them.
use chat_service_socket_cpp.Common.{
  ◌≡◌, ap, ◌∙◌, true, false, arith, some, [], ◌∷◌, ◌++◌, Text, text_eq, text_eq_iff, ltb,
  if◌then◌else◌, Option-cases, inl, inr,
}
use chat_service_socket_cpp.Common.Int.{ℤ, pos, int_eq}
use chat_service_socket_cpp.Env.{Env}
use chat_service_socket_cpp.Package.{Package, room_name}
use chat_service_socket_cpp.User.{User, user_key, set_state}
use chat_service_socket_cpp.Room.{Room, add, remove_user, list_clients, get_room_id, find as holds}
use chat_service_socket_cpp.Room.Laws.{HasId, add_lem, remove_user_lem, get_room_id-HasId}
use chat_service_socket_cpp.StdMap.{find, first, assign}
use chat_service_socket_cpp.StdMap.Laws.{find-key, find-assign, find-assign-none, find-replace}
use chat_service_socket_cpp.Database.RoomsDa.{room_key}
use chat_service_socket_cpp.Server.State.{World, replace_user}
use chat_service_socket_cpp.Server.Offline.{leave_room}
use chat_service_socket_cpp.Server.Frame.{SameState-tell_left}
use chat_service_socket_cpp.Server.Rooms.{join_room, enter_state}

enter_state-rooms :
    (e : Env) (fd : ℤ) (name : Text) (w : World) → (enter_state e fd name w).rooms ≡ w.rooms
unfolding enter_state replace_user
enter_state-rooms e fd name w = elim (Option-cases (first user_key (λ v. int_eq v fd) w.users)) [
  | inl q ↦ ground (arith, q)
  | inr ((u, x), q) ↦ ground (arith, q)
]

enter_state-user :
    (e : Env) (fd : ℤ) (name t : Text) (w : World) (u : User) (v : ℤ)
    → first user_key (λ v. int_eq v fd) w.users ≡ some (u, v)
    → find user_key t (enter_state e fd name w).users ≡ (
        if text_eq u.username t
        then some (set_state (pos 2) name u, fd)
        else find user_key t w.users)
unfolding enter_state replace_user set_state
enter_state-user e fd name t w u v q =
    rw (q, enter_state) (find-replace user_key (set_state (pos 2) name u) fd t w.users)

pub find-assign_cases :
    (x t : Text) (r r' : Room) (w : World)
    → find room_key x w.rooms ≡ some (x, r)
    → find room_key t (assign room_key x r' w.rooms)
      ≡ (if text_eq x t then some (x, r') else find room_key t w.rooms)
find-assign_cases x t r r' w h = elim (Option-cases (find room_key t w.rooms)) [
  | inl q ↦ ground (arith, q, h, find-assign-none room_key x t r' w.rooms q, text_eq_iff x t)
  | inr ((k, r₀), q) ↦ ground (
    arith,
    q,
    h,
    find-assign room_key x t r' w.rooms k r₀ q,
    text_eq_iff x t,
    find-key room_key t w.rooms k r₀ q,
  )
]

-- A client that has a user, is not in the room and finds a place enters it: the room's clients are
-- those from before with the new one at the end, every other room is as it was, the user's state is
-- the room, and every other user is as it was.
pub join_room-accepted :
    (e : Env) (fd : ℤ) (pk : Package) (w : World) (u : User) (v : ℤ) (id : Text) (room : Room)
    (t : Text)
    → find room_key (room_name e pk) w.rooms ≡ some (id, room)
    → first user_key (λ v. int_eq v fd) w.users ≡ some (u, v)
    → ltb room.available_users room.capacity ≡ true
    → holds fd room ≡ false
    → let after = join_room e fd pk w in
      (find room_key t after.rooms ≡ (
        if text_eq (room_name e pk) t then some (id, (add fd room).1) else find room_key t w.rooms))
      × (list_clients (add fd room).1 ≡ list_clients room ++ fd ∷ [])
      × (find user_key t after.users ≡ (
          if text_eq u.username t
          then some (set_state (pos 2) (room_name e pk) u, fd)
          else find user_key t w.users))
unfolding join_room
join_room-accepted e fd pk w u v id room t there here place new =
    let x = room_name e pk in
    let w' : World = record w { rooms = assign room_key id (add fd room).1 w.rooms } in
    let key : id ≡ x = find-key room_key x w.rooms id room there in
    ground (
      arith,
      there,
      place,
      new,
      key,
      add_lem fd room,
      enter_state-rooms e fd x w',
      enter_state-user e fd x t w' u v here,
      find-assign_cases id t room (add fd room).1 w (ap (λ k. find room_key k w.rooms) key ∙ there),
    )

-- A room of which the id is stored whole stays under its id when a client leaves it: the client is
-- taken out of its list, and every other room is as it was.
pub leave_room-rooms :
    (e : Env) (fd : ℤ) (u : User) (w : World) (id : Text) (room : Room) (t : Text)
    → find room_key u.state.name w.rooms ≡ some (id, room)
    → HasId id room
    → find room_key t (leave_room e fd u w).rooms
      ≡ (if text_eq u.state.name t then some (id, remove_user fd room) else find room_key t w.rooms)
unfolding leave_room
leave_room-rooms e fd u w id room t there named =
    let left = remove_user fd room in
    let key : id ≡ u.state.name = find-key room_key u.state.name w.rooms id room there in
    let same_id : get_room_id left ≡ id =
      get_room_id-HasId id left
        (record { stored = rw (remove_user_lem fd room).2 named.stored; short = named.short }) in
    ground (
      arith,
      there,
      key,
      same_id,
      (SameState-tell_left e u left w).rooms,
      find-replace room_key id left t w.rooms,
    )
