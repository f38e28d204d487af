-- ===== src/Server/Frame.antt =====
-- What the loops that only write leave alone.
use chat_service_socket_cpp.Common.{
  ◌≡◌, refl, Text, List, [], ◌∷◌, ◌++◌, arith, Option-cases, inl, inr,
}
use chat_service_socket_cpp.Common.Int.{ℤ}
use chat_service_socket_cpp.Env.{Env}
use chat_service_socket_cpp.Message.{MessageSend}
use chat_service_socket_cpp.Package.{
  EType, Package, nowork, send_mess, checkparty, set_type, set_offline_mess, set_type_with, fresh,
}
use chat_service_socket_cpp.Room.{Room, list_clients, remove_user}
use chat_service_socket_cpp.StdMap.{find}
use chat_service_socket_cpp.Database.RoomsDa.{room_key}
use chat_service_socket_cpp.User.{User}
use chat_service_socket_cpp.Database.Access
use chat_service_socket_cpp.Server.State.{World, write, find_user_by_fd}
use chat_service_socket_cpp.Server.Offline.{
  write_all, notify_parties, deliver, notification_offline, handle_offline_message, leave_room,
  left_notice, tell_left,
}

-- Only `out` differs.
pub record SameState (v w : World) : Type 0 where
  pub users : v.users ≡ w.users
  pub rooms : v.rooms ≡ w.rooms
  pub db : v.db ≡ w.db

pub SameState-write_all : (fds : List ℤ) (p : Package) (w : World) → SameState (write_all fds p w) w
unfolding write_all
SameState-write_all [] p w = record { users = refl; rooms = refl; db = refl }
SameState-write_all (fd ∷ fds) p w =
    let ih = SameState-write_all fds p (write fd p w) in
    record { users = ih.users; rooms = ih.rooms; db = ih.db }

pub SameState-notify_parties :
    (p : Package) (name : Text) (m : List (User × ℤ)) (w : World)
    → SameState (notify_parties p name m w) w
unfolding notify_parties
SameState-notify_parties p name [] w = record { users = refl; rooms = refl; db = refl }
SameState-notify_parties p name ((u, v) ∷ m) w =
    ground
      (arith, SameState-notify_parties p name m (write v p w), SameState-notify_parties p name m w)

pub SameState-deliver :
    (e : Env) (fd : ℤ) (msgs : List MessageSend) (p : Package) (w : World)
    → SameState (deliver e fd msgs p w) w
unfolding deliver
SameState-deliver e fd [] p w = record { users = refl; rooms = refl; db = refl }
SameState-deliver e fd (msg ∷ msgs) p w =
    let p' = set_type send_mess (set_offline_mess e msg p) in
    ground (arith, SameState-deliver e fd msgs p' (write fd p' w))

pub SameState-notification_offline :
    (e : Env) (fd : ℤ) (t : EType) (w : World) → SameState (notification_offline e fd t w) w
unfolding notification_offline
SameState-notification_offline e fd t w = ground (
  arith,
  SameState-notify_parties (set_type_with e t (fresh e checkparty))
      (find_user_by_fd e fd w).username w.users w,
)

-- Offline messages are written and then deleted; the maps stay.
pub handle_offline_message_frame :
    (e : Env) (fd : ℤ) (w : World)
    → ((handle_offline_message e fd w).users ≡ w.users)
      × ((handle_offline_message e fd w).rooms ≡ w.rooms)
      × ((handle_offline_message e fd w).db.users ≡ w.db.users)
      × ((handle_offline_message e fd w).db.rooms ≡ w.db.rooms)
      × ((handle_offline_message e fd w).db.roles ≡ w.db.roles)
unfolding handle_offline_message Access.delete_message_of_user
handle_offline_message_frame e fd w =
    elim (Option-cases (Access.get_message_of_user e (find_user_by_fd e fd w) w.db)) [
      | inl n ↦ ground arith
      | inr (msgs, n) ↦
          ground (arith, n, SameState-deliver e fd (msgs ++ e.junk_messages) (fresh e nowork) w)
    ]

pub SameState-tell_left :
    (e : Env) (u : User) (room : Room) (w : World) → SameState (tell_left e u room w) w
unfolding tell_left
SameState-tell_left e u room w =
    ground (arith, SameState-write_all (list_clients room) (left_notice e u) w)

-- `leave_room` touches only the rooms, and writes.
pub leave_room_frame :
    (e : Env) (fd : ℤ) (u : User) (w : World)
    → ((leave_room e fd u w).users ≡ w.users) × ((leave_room e fd u w).db ≡ w.db)
unfolding leave_room
leave_room_frame e fd u w = elim (Option-cases (find room_key u.state.name w.rooms)) [
  | inl n ↦ ground arith
  | inr ((id, room), n) ↦ ground (arith, n, SameState-tell_left e u (remove_user fd room) w)
]
