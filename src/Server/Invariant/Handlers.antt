-- ===== src/Server/Invariant/Handlers.antt =====
-- The well-formedness of the maps through the handlers for rooms and accounts, and `analyzePackage`.
use chat_service_socket_cpp.Common.{Text, arith, Option-cases, inl, inr}
use chat_service_socket_cpp.Common.Int.{ℤ, pos, negsuc, int_eq}
use chat_service_socket_cpp.Env.{Env}
use chat_service_socket_cpp.Package.{
  EType, Package, u_name, room_name, room_capacity, p_word, get_role,
}
use chat_service_socket_cpp.User.{
  user_key, set_state, named_user, new_user, set_username, set_password, set_role,
}
use chat_service_socket_cpp.Room.{add, make_room, set_room_id, set_capacity}
use chat_service_socket_cpp.Room.Laws
use chat_service_socket_cpp.Room.Laws.{
  add-IsValid, remove_user-IsValid, make_room-IsValid, set_room_id-IsValid, set_capacity-IsValid,
}
use chat_service_socket_cpp.StdMap.{find, first, insert, erase, assign}
use chat_service_socket_cpp.StdMap.Laws.{
  Values-insert, Values-erase, insert-IsSorted, erase-IsSorted,
}
use chat_service_socket_cpp.Database.RoomsDa.{room_key}
use chat_service_socket_cpp.Database.Access
use chat_service_socket_cpp.Server.State.{World, getfd_username}
use chat_service_socket_cpp.Server.Rooms.{
  add_room, join_room, modify_room, delete_room, enter_state,
}
use chat_service_socket_cpp.Server.Users.{add_user, delete_user, handle_modify_user, admitted_role}
use chat_service_socket_cpp.Server.Listing.{find_user, show_room, get_list_roles, get_user_online}
use chat_service_socket_cpp.Server.Dispatch.{dispatch, analyze_package}
use chat_service_socket_cpp.Server.Invariant.{IsValid, Ends, replace-IsSorted, replace_user-IsValid}
use chat_service_socket_cpp.Server.Invariant.Sessions.{
  found-IsValid, assign_room-IsValid, login-IsValid, with_function-IsValid, one_to_one_chat-IsValid,
  leave_chat_user-IsValid,
}

add_room-IsValid :
    (e : Env) (fd : ℤ) (pk : Package) (w : World) → IsValid w → Ends IsValid (add_room e fd pk w)
unfolding add_room
add_room-IsValid e fd pk w v =
    let id = room_name e pk in
    let room = make_room e id (room_capacity e pk) in
    let new : IsValid (record w { rooms = insert room_key id room w.rooms }) = record {
      users_sorted = v.users_sorted;
      rooms_sorted = insert-IsSorted room_key id room w.rooms v.rooms_sorted;
      rooms_valid =
          Values-insert room_key Laws.IsValid id room w.rooms
            (make_room-IsValid e id (room_capacity e pk)) v.rooms_valid;
    } in
    ground (arith, v, new)

enter_state-IsValid :
    (e : Env) (fd : ℤ) (name : Text) (w : World) → IsValid w → IsValid (enter_state e fd name w)
unfolding enter_state
enter_state-IsValid e fd name w v =
    elim (Option-cases (first user_key (λ x. int_eq x fd) w.users)) [
      | inl n ↦ rw (n, enter_state) v
      | inr ((u, x), n) ↦
          rw (n, enter_state)
            (replace_user-IsValid (set_state (pos 2) name u) fd
              (record w { db = Access.clear_state e u w.db }) v)
    ]

join_room-IsValid :
    (e : Env) (fd : ℤ) (pk : Package) (w : World) → IsValid w → IsValid (join_room e fd pk w)
unfolding join_room
join_room-IsValid e fd pk w v = elim (Option-cases (find room_key (room_name e pk) w.rooms)) [
  | inl n ↦ rw (n, join_room) v
  | inr ((id, room), n) ↦
      let joined : World = record w { rooms = assign room_key id (add fd room).1 w.rooms } in
      ground (
        arith,
        n,
        v,
        enter_state-IsValid e fd (room_name e pk) joined (
            assign_room-IsValid id (add fd room).1 w
              (add-IsValid fd room (found-IsValid (room_name e pk) w id room v n)) v),
      )
]

modify_room-IsValid :
    (e : Env) (fd : ℤ) (pk : Package) (w : World) → IsValid w → IsValid (modify_room e fd pk w)
unfolding modify_room
modify_room-IsValid e fd pk w v = elim (Option-cases (find room_key (room_name e pk) w.rooms)) [
  | inl n ↦ ground (arith, n, v)
  | inr ((id, room), n) ↦
      let named = set_room_id (room_name e pk) room in
      let changed = set_capacity e (room_capacity e pk) named in
      ground (
        arith,
        n,
        v,
        assign_room-IsValid id changed w
            (set_capacity-IsValid e (room_capacity e pk) named (
              set_room_id-IsValid (room_name e pk) room
                (found-IsValid (room_name e pk) w id room v n)))
            v,
      )
]

delete_room-IsValid :
    (e : Env) (fd : ℤ) (pk : Package) (w : World) → IsValid w → IsValid (delete_room e fd pk w)
unfolding delete_room
delete_room-IsValid e fd pk w v = elim (Option-cases (find room_key (room_name e pk) w.rooms)) [
  | inl n ↦ ground (arith, n, v)
  | inr ((id, room), n) ↦
      let gone : IsValid (record w { rooms = erase room_key id w.rooms }) = record {
        users_sorted = v.users_sorted;
        rooms_sorted = erase-IsSorted room_key id w.rooms v.rooms_sorted;
        rooms_valid = Values-erase room_key Laws.IsValid id w.rooms v.rooms_valid;
      } in
      ground (arith, n, v, gone)
]

add_user-IsValid :
    (e : Env) (fd : ℤ) (pk : Package) (w : World) → IsValid w → Ends IsValid (add_user e fd pk w)
unfolding add_user
add_user-IsValid e fd pk w v =
    let us = set_role (admitted_role (get_role e pk)) (named_user (u_name e pk) (p_word e pk)) in
    ground (arith, v, insert-IsSorted user_key us (negsuc 0) w.users v.users_sorted)

delete_user-IsValid :
    (e : Env) (fd : ℤ) (pk : Package) (w : World) → IsValid w → Ends IsValid (delete_user e fd pk w)
unfolding delete_user
delete_user-IsValid e fd pk w v =
    elim (Option-cases (find user_key (set_username (u_name e pk) (new_user e)).username w.users)) [
      | inl n ↦ ground (arith, n, v)
      | inr ((u, x), n) ↦
          ground (arith, n, v, erase-IsSorted user_key u.username w.users v.users_sorted)
    ]

handle_modify_user-IsValid :
    (e : Env) (fd : ℤ) (pk : Package) (w : World)
    → IsValid w
    → Ends IsValid (handle_modify_user e fd pk w)
unfolding handle_modify_user
handle_modify_user-IsValid e fd pk w v = elim (Option-cases (find user_key (u_name e pk) w.users)) [
  | inl n ↦ ground (arith, n, v)
  | inr ((u, x), n) ↦
      let modified = set_role (admitted_role (get_role e pk)) (set_password (p_word e pk) u) in
      ground (
        arith,
        n,
        v,
        replace-IsSorted modified (getfd_username (u_name e pk) w) w.users v.users_sorted,
      )
]

-- Whatever the type of a package, handling it keeps the maps well-formed.
pub dispatch-IsValid :
    (e : Env) (fd : ℤ) (t : EType) (pk : Package) (w : World)
    → IsValid w
    → Ends IsValid (dispatch e fd t pk w)
unfolding dispatch find_user show_room get_list_roles get_user_online
dispatch-IsValid e fd EType.loginn pk w v = login-IsValid e fd pk w v
dispatch-IsValid e fd EType.withh pk w v = with_function-IsValid e fd pk w v
dispatch-IsValid e fd EType.joinn pk w v = join_room-IsValid e fd pk w v
dispatch-IsValid e fd EType.send_mess pk w v = one_to_one_chat-IsValid e fd pk w v
dispatch-IsValid e fd EType.terminate_chat pk w v = leave_chat_user-IsValid e fd w v
dispatch-IsValid e fd EType.create_user pk w v = add_user-IsValid e fd pk w v
dispatch-IsValid e fd EType.modify_user pk w v = handle_modify_user-IsValid e fd pk w v
dispatch-IsValid e fd EType.delete_user pk w v = delete_user-IsValid e fd pk w v
dispatch-IsValid e fd EType.modify_room pk w v = modify_room-IsValid e fd pk w v
dispatch-IsValid e fd EType.delete_room pk w v = delete_room-IsValid e fd pk w v
dispatch-IsValid e fd EType.create_room pk w v = add_room-IsValid e fd pk w v
dispatch-IsValid e fd _ pk w v = v

pub analyze_package-IsValid :
    (e : Env) (fd : ℤ) (pk : Package) (w : World)
    → IsValid w
    → Ends IsValid (analyze_package e fd pk w)
unfolding analyze_package
analyze_package-IsValid e fd pk w v = ground (arith, v, dispatch-IsValid e fd pk.type pk w v)
