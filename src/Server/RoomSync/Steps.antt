-- ===== src/Server/RoomSync/Steps.antt =====
-- The map of rooms and the table through sessions, `analyzePackage` and the end of a connection.
use chat_service_socket_cpp.Common.{ℕ, some, none, arith, Option-cases, inl, inr}
use chat_service_socket_cpp.Common.Int.{ℤ, int_eq}
use chat_service_socket_cpp.Env.{Env, IsBinary}
use chat_service_socket_cpp.Package.{EType, Package, u_name, onlineuser, offlineuser}
use chat_service_socket_cpp.User.{User, user_key}
use chat_service_socket_cpp.Room.{add}
use chat_service_socket_cpp.StdMap.{find, first, assign}
use chat_service_socket_cpp.Database.RoomsDa.{room_key}
use chat_service_socket_cpp.Database.Access
use chat_service_socket_cpp.Server.State.{World, Run, write, find_user_by_fd}
use chat_service_socket_cpp.Server.Offline.{
  leave_room, change_state_user_off, handle_offline_message, notification_offline,
}
use chat_service_socket_cpp.Server.Frame.{
  SameState-notification_offline, handle_offline_message_frame,
}
use chat_service_socket_cpp.Server.Login.{login, login_accepted, login_package, rejoin}
use chat_service_socket_cpp.Server.Chat.{
  leave_chat_user, empty_state, with_function, one_to_one_chat,
}
use chat_service_socket_cpp.Server.Users.{add_user, delete_user, handle_modify_user}
use chat_service_socket_cpp.Server.Listing.{find_user, show_room, get_list_roles, get_user_online}
use chat_service_socket_cpp.Server.Dispatch.{dispatch, analyze_package}
use chat_service_socket_cpp.Server.Poll.{disconnect}
use chat_service_socket_cpp.Server.Invariant.{Ends}
use chat_service_socket_cpp.Server.RoomSync.{InStep, Brings}
use chat_service_socket_cpp.Server.RoomSync.Keep.{SameRooms, SameRooms-InStep}
use chat_service_socket_cpp.Server.RoomSync.Frame.{
  SameState-SameRooms, with_function-SameRooms, one_to_one_chat-SameRooms, empty_state-SameRooms,
  add_user-SameRooms, delete_user-SameRooms, handle_modify_user-SameRooms,
}
use chat_service_socket_cpp.Server.RoomSync.Rooms.{
  add-same, assign-InStep, leave_room-InStep, join_room-InStep, add_room-InStep, modify_room-InStep,
  delete_room-InStep,
}

change_state_user_off-InStep :
    (e : Env) (fd : ℤ) (w : World) → InStep w → InStep (change_state_user_off e fd w).1
unfolding change_state_user_off Access.clear_state
change_state_user_off-InStep e fd w s =
    elim (Option-cases (first user_key (λ x. int_eq x fd) w.users)) [
      | inl n ↦ ground (arith, n, s)
      | inr ((u, x), n) ↦ ground (arith, n, s, leave_room-InStep e fd u w s)
    ]

rejoin-InStep : (fd : ℤ) (u : User) (w : World) → InStep w → InStep (rejoin fd u w).1
unfolding rejoin
rejoin-InStep fd u w s = elim (Option-cases (find room_key u.state.name w.rooms)) [
  | inl n ↦ ground (arith, n, s)
  | inr ((k, room), n) ↦
      let same = add-same fd room in
      ground (arith, n, s, assign-InStep w u.state.name k room (add fd room).1 s n same.0 same.1)
]

-- The offline messages and the notification that follow a login.
told-InStep :
    (e : Env) (fd : ℤ) (t : EType) (w : World)
    → InStep w
    → InStep (notification_offline e fd t (handle_offline_message e fd w))
told-InStep e fd t w s =
    let told = handle_offline_message e fd w in
    let frame = handle_offline_message_frame e fd w in
    SameRooms-InStep (notification_offline e fd t told) told
      (SameState-SameRooms (notification_offline e fd t told) told
        (SameState-notification_offline e fd t told))
      (SameRooms-InStep told w (record { rooms = frame.1; rows = frame.3 }) s)

login_accepted-InStep :
    (e : Env) (fd : ℤ) (u : User) (w : World) → InStep w → InStep (login_accepted e fd u w)
unfolding login_accepted
login_accepted-InStep e fd u w s =
    let online : World = record w { users = assign user_key u.username fd w.users } in
    let back = rejoin fd u online in
    let inside : InStep back.1 = rejoin-InStep fd u online s in
    ground (
      arith,
      inside,
      told-InStep e fd onlineuser (write fd (login_package e u) back.1) (unfold write in inside),
    )

login-InStep : (e : Env) (fd : ℤ) (pk : Package) (w : World) → InStep w → InStep (login e fd pk w)
unfolding login
login-InStep e fd pk w s = elim (Option-cases (find user_key (u_name e pk) w.users)) [
  | inl n ↦ ground (arith, n, s)
  | inr ((u, x), n) ↦ ground (arith, n, s, login_accepted-InStep e fd u w s)
]

leave_chat_user-InStep : (e : Env) (fd : ℤ) (w : World) → InStep w → InStep (leave_chat_user e fd w)
unfolding leave_chat_user
leave_chat_user-InStep e fd w s =
    let left = leave_room e fd (find_user_by_fd e fd w) w in
    ground (
      arith,
      s,
      SameRooms-InStep (empty_state e fd w) w (empty_state-SameRooms e fd w) s,
      SameRooms-InStep (empty_state e fd left) left (empty_state-SameRooms e fd left)
          (leave_room-InStep e fd (find_user_by_fd e fd w) w s),
    )

-- Where a handler has not ended, the rooms are as before.
Ends-InStep : (r : Run) (w : World) → Ends (λ v. SameRooms v w) r → InStep w → Ends InStep r
Ends-InStep none w k s = tt
Ends-InStep (some v) w k s = SameRooms-InStep v w k s

-- Whatever the type of a package: if its handler ends, the map and the table of rooms agree.
dispatch-InStep :
    (n : ℕ) (e : Env) (fd : ℤ) (t : EType) (pk : Package) (w : World)
    → IsBinary e
    → Brings n e t pk
    → InStep w
    → Ends InStep (dispatch e fd t pk w)
unfolding dispatch find_user show_room get_list_roles get_user_online
dispatch-InStep n e fd EType.loginn pk w b a s = login-InStep e fd pk w s
dispatch-InStep n e fd EType.withh pk w b a s =
    SameRooms-InStep (with_function e fd pk w) w (with_function-SameRooms e fd pk w) s
dispatch-InStep n e fd EType.joinn pk w b a s = join_room-InStep e fd pk w s
dispatch-InStep n e fd EType.send_mess pk w b a s =
    Ends-InStep (one_to_one_chat e fd pk w) w (one_to_one_chat-SameRooms e fd pk w) s
dispatch-InStep n e fd EType.terminate_chat pk w b a s = leave_chat_user-InStep e fd w s
dispatch-InStep n e fd EType.create_user pk w b a s =
    Ends-InStep (add_user e fd pk w) w (add_user-SameRooms e fd pk w) s
dispatch-InStep n e fd EType.modify_user pk w b a s =
    Ends-InStep (handle_modify_user e fd pk w) w (handle_modify_user-SameRooms e fd pk w) s
dispatch-InStep n e fd EType.delete_user pk w b a s =
    Ends-InStep (delete_user e fd pk w) w (delete_user-SameRooms e fd pk w) s
dispatch-InStep n e fd EType.modify_room pk w b a s = modify_room-InStep e fd pk w b s
dispatch-InStep n e fd EType.delete_room pk w b a s = delete_room-InStep e fd pk w b s
dispatch-InStep n e fd EType.create_room pk w b a s = add_room-InStep e fd pk w b a.0 a.1 s
dispatch-InStep n e fd _ pk w b a s = s

pub analyze_package-InStep :
    (n : ℕ) (e : Env) (fd : ℤ) (pk : Package) (w : World)
    → IsBinary e
    → Brings n e pk.type pk
    → InStep w
    → Ends InStep (analyze_package e fd pk w)
unfolding analyze_package
analyze_package-InStep n e fd pk w b a s =
    ground (arith, s, dispatch-InStep n e fd pk.type pk w b a s)

pub disconnect-InStep : (e : Env) (fd : ℤ) (w : World) → InStep w → InStep (disconnect e fd w)
unfolding disconnect
disconnect-InStep e fd w s =
    let told = notification_offline e fd offlineuser w in
    ground (
      arith,
      s,
      change_state_user_off-InStep e fd told (
          SameRooms-InStep told w
            (SameState-SameRooms told w (SameState-notification_offline e fd offlineuser w)) s),
    )
