-- ===== src/Server/Invariant/Sessions.antt =====
-- The well-formedness of the maps through logins, conversations and the end of a session.
use chat_service_socket_cpp.Common.{
  ◌≡◌, Text, [], some, arith, if◌then◌else◌, Option-cases, inl, inr,
}
use chat_service_socket_cpp.Common.Int.{ℤ, pos, negsuc, int_eq, is_neg}
use chat_service_socket_cpp.Env.{Env}
use chat_service_socket_cpp.Memory.{str_to_char}
use chat_service_socket_cpp.Package.{
  EType, Package, u_name, user_rev, onlineuser, offlineuser, set_sender,
}
use chat_service_socket_cpp.User.{User, user_key, set_state}
use chat_service_socket_cpp.Room.{Room, add, remove_user, get_room_id, list_clients}
use chat_service_socket_cpp.Room.Laws
use chat_service_socket_cpp.Room.Laws.{
  add-IsValid, remove_user-IsValid, make_room-IsValid, set_room_id-IsValid, set_capacity-IsValid,
}
use chat_service_socket_cpp.StdMap.{find, first, insert, erase, assign}
use chat_service_socket_cpp.StdMap.Laws.{
  Values-find, Values-insert, Values-erase, Values-assign, insert-IsSorted, erase-IsSorted,
  assign-IsSorted,
}
use chat_service_socket_cpp.Database.RoomsDa.{room_key}
use chat_service_socket_cpp.Database.Access
use chat_service_socket_cpp.Server.State.{World, write, find_user_by_fd, is_online_at}
use chat_service_socket_cpp.Server.Offline.{
  leave_room, handle_offline_message, change_state_user_off, tell_left,
}
use chat_service_socket_cpp.Server.Frame.{
  SameState, SameState-write_all, SameState-tell_left, SameState-notification_offline,
  handle_offline_message_frame, leave_room_frame,
}
use chat_service_socket_cpp.Server.Login.{login, login_accepted, login_package, rejoin}
use chat_service_socket_cpp.Server.Chat.{
  with_function, connect_with, one_to_one_chat, send_to_user, room_chat, room_or_new, chat_sender,
  leave_chat_user, empty_state,
}
use chat_service_socket_cpp.Server.Invariant.{
  MapsValid, IsValid, Ends, replace-IsSorted, replace_user-IsValid,
}

-- Moving along equal maps.
pub SameState-IsValid : (v w : World) → SameState v w → IsValid w → IsValid v
SameState-IsValid v w s h = rw (s.users, s.rooms) h

pub found-IsValid :
    (t : Text) (w : World) (id : Text) (room : Room)
    → IsValid w
    → find room_key t w.rooms ≡ some (id, room)
    → Laws.IsValid room
found-IsValid t w id room v n = Values-find room_key Laws.IsValid t w.rooms id room v.rooms_valid n

-- `it->second = room`
pub assign_room-IsValid :
    (t : Text) (room : Room) (w : World)
    → Laws.IsValid room
    → IsValid w
    → IsValid (record w { rooms = assign room_key t room w.rooms })
assign_room-IsValid t room w h v = record {
  users_sorted = v.users_sorted;
  rooms_sorted = assign-IsSorted room_key t room w.rooms v.rooms_sorted;
  rooms_valid = Values-assign room_key Laws.IsValid t room w.rooms h v.rooms_valid;
}

-- `erase` and `insert` of a room that has changed
pub put_back-IsValid :
    (id key : Text) (room : Room) (told w : World)
    → SameState told w
    → Laws.IsValid room
    → IsValid w
    → MapsValid told.users (insert room_key key room (erase room_key id told.rooms))
put_back-IsValid id key room told w s h v =
    rw (s.users, s.rooms)
      (record {
        users_sorted = v.users_sorted;
        rooms_sorted =
            insert-IsSorted room_key key room (erase room_key id w.rooms)
              (erase-IsSorted room_key id w.rooms v.rooms_sorted);
        rooms_valid =
            Values-insert room_key Laws.IsValid key room (erase room_key id w.rooms) h
              (Values-erase room_key Laws.IsValid id w.rooms v.rooms_valid);
      })

pub leave_room-IsValid :
    (e : Env) (fd : ℤ) (u : User) (w : World) → IsValid w → IsValid (leave_room e fd u w)
unfolding leave_room
leave_room-IsValid e fd u w v = elim (Option-cases (find room_key u.state.name w.rooms)) [
  | inl n ↦ rw (n, leave_room) v
  | inr ((id, room), n) ↦
      let temp = remove_user fd room in
      rw (n, leave_room)
        (put_back-IsValid id (get_room_id temp) temp (tell_left e u temp w) w
          (SameState-tell_left e u temp w)
          (remove_user-IsValid fd room (found-IsValid u.state.name w id room v n)) v)
]

pub change_state_user_off-IsValid :
    (e : Env) (fd : ℤ) (w : World) → IsValid w → IsValid (change_state_user_off e fd w).1
unfolding change_state_user_off
change_state_user_off-IsValid e fd w v =
    elim (Option-cases (first user_key (λ x. int_eq x fd) w.users)) [
      | inl n ↦ rw (n, change_state_user_off) v
      | inr ((u, x), n) ↦
          rw (n, change_state_user_off)
            (ground (
              arith,
              leave_room-IsValid e fd u w v,
              replace-IsSorted (set_state (pos 0) [] u) (negsuc 0) w.users v.users_sorted,
              leave_room_frame e fd u w,
            ))
    ]

pub rejoin-IsValid : (fd : ℤ) (u : User) (w : World) → IsValid w → IsValid (rejoin fd u w).1
unfolding rejoin
rejoin-IsValid fd u w v = elim (Option-cases (find room_key u.state.name w.rooms)) [
  | inl n ↦ ground (arith, n)
  | inr ((id, room), n) ↦ ground (
    arith,
    n,
    assign_room-IsValid id (add fd room).1 w
        (add-IsValid fd room (found-IsValid u.state.name w id room v n)) v,
  )
]

pub login_accepted-IsValid :
    (e : Env) (fd : ℤ) (u : User) (w : World) → IsValid w → IsValid (login_accepted e fd u w)
unfolding login_accepted
login_accepted-IsValid e fd u w v =
    let online : World = record w { users = assign user_key u.username fd w.users } in
    let back = rejoin fd u online in
    let answered = write fd (login_package e u) back.1 in
    let told = handle_offline_message e fd answered in
    ground (
      arith,
      rejoin-IsValid fd u online (record {
        users_sorted = assign-IsSorted user_key u.username fd w.users v.users_sorted;
        rooms_sorted = v.rooms_sorted;
        rooms_valid = v.rooms_valid;
      }),
      handle_offline_message_frame e fd answered,
      SameState-notification_offline e fd onlineuser told,
    )

pub login-IsValid :
    (e : Env) (fd : ℤ) (pk : Package) (w : World) → IsValid w → IsValid (login e fd pk w)
unfolding login
login-IsValid e fd pk w v = elim (Option-cases (find user_key (u_name e pk) w.users)) [
  | inl n ↦ rw (n, login) v
  | inr ((u, x), n) ↦ ground (arith, n, v, login_accepted-IsValid e fd u w v)
]

pub connect_with-IsValid :
    (e : Env) (fd : ℤ) (name : Text) (status : EType) (w : World)
    → IsValid w
    → IsValid (connect_with e fd name status w)
unfolding connect_with
connect_with-IsValid e fd name status w v =
    elim (Option-cases (first user_key (is_online_at fd) w.users)) [
      | inl n ↦ rw (n, connect_with) v
      | inr ((u, x), n) ↦
          rw (n, connect_with) (replace_user-IsValid (set_state (pos 1) name u) fd w v)
    ]

pub with_function-IsValid :
    (e : Env) (fd : ℤ) (pk : Package) (w : World) → IsValid w → IsValid (with_function e fd pk w)
unfolding with_function
with_function-IsValid e fd pk w v = elim (Option-cases (find user_key (user_rev e pk) w.users)) [
  | inl n ↦ rw (n, with_function) v
  | inr ((u, x), n) ↦ ground (
    arith,
    n,
    v,
    connect_with-IsValid e fd (user_rev e pk) (if is_neg x then offlineuser else onlineuser) w v,
  )
]

pub send_to_user-IsValid :
    (e : Env) (pk : Package) (u : User) (w : World)
    → IsValid w
    → Ends IsValid (send_to_user e pk u w)
unfolding send_to_user
send_to_user-IsValid e pk u w v = elim (Option-cases (find user_key u.state.name w.users)) [
  | inl n ↦ rw (n, send_to_user) v
  | inr ((r, x), n) ↦ ground (arith, n, v)
]

pub room_chat-IsValid :
    (e : Env) (pk : Package) (u : User) (w : World) → IsValid w → IsValid (room_chat e pk u w)
unfolding room_chat
room_chat-IsValid e pk u w v =
    SameState-IsValid (room_chat e pk u w) w
      (SameState-write_all (list_clients (room_or_new e (str_to_char u.state.name) w))
        (set_sender e (str_to_char u.username) pk) w)
      v

pub one_to_one_chat-IsValid :
    (e : Env) (fd : ℤ) (pk : Package) (w : World)
    → IsValid w
    → Ends IsValid (one_to_one_chat e fd pk w)
unfolding one_to_one_chat
one_to_one_chat-IsValid e fd pk w v = ground (
  arith,
  v,
  send_to_user-IsValid e pk (chat_sender e fd w) w v,
  room_chat-IsValid e pk (chat_sender e fd w) w v,
)

pub empty_state-IsValid : (e : Env) (fd : ℤ) (w : World) → IsValid w → IsValid (empty_state e fd w)
unfolding empty_state
empty_state-IsValid e fd w v = elim (Option-cases (first user_key (λ x. int_eq x fd) w.users)) [
  | inl n ↦ rw (n, empty_state) v
  | inr ((u, x), n) ↦
      rw (n, empty_state)
        (replace_user-IsValid (set_state (pos 0) [] u) fd
          (record w { db = Access.clear_state e u w.db }) v)
]

pub leave_chat_user-IsValid :
    (e : Env) (fd : ℤ) (w : World) → IsValid w → IsValid (leave_chat_user e fd w)
unfolding leave_chat_user
leave_chat_user-IsValid e fd w v =
    let left = leave_room e fd (find_user_by_fd e fd w) w in
    ground (
      arith,
      v,
      empty_state-IsValid e fd w v,
      empty_state-IsValid e fd left (leave_room-IsValid e fd (find_user_by_fd e fd w) w v),
    )
