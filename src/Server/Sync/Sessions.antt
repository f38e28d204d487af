-- ===== src/Server/Sync/Sessions.antt =====
-- The map of users and the tables through `Login`, `WithFunction`, `JoinRoom` and the end of a session.
use chat_service_socket_cpp.Common.{
  ℕ, ◌≡◌, refl, Text, [], ◌++◌, none, some, not, arith, if◌then◌else◌, Option-cases, inl, inr,
}
use chat_service_socket_cpp.Common.Int.{ℤ, pos, negsuc, int_eq, is_neg}
use chat_service_socket_cpp.Env.{Env, IsBinary}
use chat_service_socket_cpp.Package.{
  EType, Package, u_name, user_rev, room_name, fresh, onlineuser, offlineuser, nowork,
}
use chat_service_socket_cpp.User.{User, user_key, set_state}
use chat_service_socket_cpp.Room.{add}
use chat_service_socket_cpp.StdMap.{IsSorted, find, first, insert, erase, assign}
use chat_service_socket_cpp.StdMap.Scan.{first-find}
use chat_service_socket_cpp.Database.RoomsDa.{room_key}
use chat_service_socket_cpp.Database.Sql.{UserRow, delete, by_receiver, state_column}
use chat_service_socket_cpp.Database.Access
use chat_service_socket_cpp.Database.Rows.{IsPlain, update-update, All-select}
use chat_service_socket_cpp.Server.State.{World, write, find_user_by_fd, replace_user, is_online_at}
use chat_service_socket_cpp.Server.Offline.{
  notification_offline, handle_offline_message, change_state_user_off, deliver,
}
use chat_service_socket_cpp.Server.Frame.{
  SameState-deliver, SameState-notification_offline, leave_room_frame,
}
use chat_service_socket_cpp.Server.Login.{login, login_accepted, login_package, rejoin}
use chat_service_socket_cpp.Server.Chat.{with_function, connect_with, empty_state}
use chat_service_socket_cpp.Server.Rooms.{join_room, enter_state}
use chat_service_socket_cpp.Server.Sync.{Refers, Synced, IsSynced}
use chat_service_socket_cpp.Server.Sync.Users.{
  Synced-replace, Synced-assign, SameUser-clear, SameUser-room, SameUser-user,
}
use chat_service_socket_cpp.Server.Sync.Keep.{Synced-messages, SameState-IsSynced}

-- The world of a step: the tables compare names exactly.
module _ (n : ℕ) (e : Env) (b : IsBinary e) where
  -- The entry of a connection, with its row.
  clear_entry :
      (w : World) (u : User) (x fd : ℤ)
      → IsSynced n w
      → find user_key u.username w.users ≡ some (u, x)
      → Synced n
          (insert user_key (set_state (pos 0) [] u) fd (erase user_key u.username w.users))
          (Access.clear_state e u w.db)
  unfolding Access.clear_state set_state
  clear_entry w u x fd s found =
      Synced-replace e b (λ row. record row { state = none }) (λ row. refl) (set_state (pos 0) [] u)
        fd n w.users w.db u x s found (SameUser-clear u)

  pub connect_with-IsSynced :
      (fd : ℤ) (name : Text) (status : EType) (w : World)
      → IsPlain name
      → IsSorted user_key w.users
      → IsSynced n w
      → IsSynced n (connect_with e fd name status w)
  unfolding connect_with Access.update_state
  connect_with-IsSynced fd name status w p v s =
      elim (Option-cases (first user_key (is_online_at fd) w.users)) [
        | inl q ↦ rw (q, connect_with) s
        | inr ((u, x), q) ↦
            rw (q, connect_with)
              (unfold set_state replace_user write in
                Synced-replace e b (λ row. record row { state = state_column (pos 1) name })
                  (λ row. refl) (set_state (pos 1) name u) fd n w.users w.db u x s
                  (first-find user_key (is_online_at fd) w.users u x v q).0
                  (λ row. SameUser-user u row name p))
      ]

  pub enter_state-IsSynced :
      (fd : ℤ) (name : Text) (w : World)
      → IsSorted user_key w.users
      → IsSynced n w
      → IsSynced n (enter_state e fd name w)
  unfolding enter_state Access.update_state Access.clear_state
  enter_state-IsSynced fd name w v s =
      elim (Option-cases (first user_key (λ x. int_eq x fd) w.users)) [
        | inl q ↦ rw (q, enter_state) s
        | inr ((u, x), q) ↦
            let cleared = λ (row : UserRow). record row { state = none } in
            let entered = λ (row : UserRow). record row { state = state_column (pos 2) name } in
            rw (q, enter_state)
              (unfold set_state replace_user in
                rw (update-update e u.username cleared entered w.db.users (λ row. refl)) (
                  Synced-replace e b entered (λ row. refl) (set_state (pos 2) name u) fd n w.users
                    w.db u x s (first-find user_key (λ x. int_eq x fd) w.users u x v q).0
                    (λ row. SameUser-room u row name)))
      ]

  pub empty_state-IsSynced :
      (fd : ℤ) (w : World)
      → IsSorted user_key w.users
      → IsSynced n w
      → IsSynced n (empty_state e fd w)
  unfolding empty_state
  empty_state-IsSynced fd w v s = elim (Option-cases (first user_key (λ x. int_eq x fd) w.users)) [
    | inl q ↦ rw (q, empty_state) s
    | inr ((u, x), q) ↦
        rw (q, empty_state)
          (unfold set_state replace_user in
            clear_entry w u x fd s (first-find user_key (λ x. int_eq x fd) w.users u x v q).0)
  ]

  pub change_state_user_off-IsSynced :
      (fd : ℤ) (w : World)
      → IsSorted user_key w.users
      → IsSynced n w
      → IsSynced n (change_state_user_off e fd w).1
  unfolding change_state_user_off
  change_state_user_off-IsSynced fd w v s =
      elim (Option-cases (first user_key (λ x. int_eq x fd) w.users)) [
        | inl q ↦ rw (q, change_state_user_off) s
        | inr ((u, x), q) ↦
            let found = (first-find user_key (λ x. int_eq x fd) w.users u x v q).0 in
            rw (q, change_state_user_off)
              (unfold set_state replace_user in
                ground (arith, leave_room_frame e fd u w, clear_entry w u x (negsuc 0) s found))
      ]

  pub handle_offline_message-IsSynced :
      (fd : ℤ) (w : World) → IsSynced n w → IsSynced n (handle_offline_message e fd w)
  unfolding handle_offline_message Access.delete_message_of_user
  handle_offline_message-IsSynced fd w s =
      elim (Option-cases (Access.get_message_of_user e (find_user_by_fd e fd w) w.db)) [
        | inl q ↦ rw (q, handle_offline_message) s
        | inr (msgs, q) ↦
            let told = deliver e fd (msgs ++ e.junk_messages) (fresh e nowork) w in
            let s' : IsSynced n told =
              SameState-IsSynced n told w
                (SameState-deliver e fd (msgs ++ e.junk_messages) (fresh e nowork) w) s in
            rw (q, handle_offline_message)
              (Synced-messages n told.users told.db
                (delete (by_receiver e (find_user_by_fd e fd w).username) told.db.messages) s'
                (All-select (Refers told.db.users)
                  (λ m. not (by_receiver e (find_user_by_fd e fd w).username m)) told.db.messages
                  s'.refer))
      ]

  rejoin-frame :
      (fd : ℤ) (u : User) (w : World)
      → ((rejoin fd u w).1.users ≡ w.users) × ((rejoin fd u w).1.db ≡ w.db)
  unfolding rejoin
  rejoin-frame fd u w = elim (Option-cases (find room_key u.state.name w.rooms)) [
    | inl q ↦ ground (arith, q)
    | inr ((id, room), q) ↦ ground (arith, q)
  ]

  pub login_accepted-IsSynced :
      (fd : ℤ) (u : User) (w : World) → IsSynced n w → IsSynced n (login_accepted e fd u w)
  unfolding login_accepted
  login_accepted-IsSynced fd u w s =
      let online : World = record w { users = assign user_key u.username fd w.users } in
      let back = rejoin fd u online in
      let on : IsSynced n online = Synced-assign n w.users w.db u.username fd s in
      let joined : IsSynced n back.1 =
        rw ((rejoin-frame fd u online).0, (rejoin-frame fd u online).1) on in
      let answered = write fd (login_package e u) back.1 in
      let told = handle_offline_message e fd answered in
      let s' : IsSynced n told =
        handle_offline_message-IsSynced fd answered (unfold write in joined) in
      ground (
        arith,
        joined,
        SameState-IsSynced n (notification_offline e fd onlineuser told) told
            (SameState-notification_offline e fd onlineuser told) s',
      )

  pub login-IsSynced :
      (fd : ℤ) (pk : Package) (w : World) → IsSynced n w → IsSynced n (login e fd pk w)
  unfolding login
  login-IsSynced fd pk w s = elim (Option-cases (find user_key (u_name e pk) w.users)) [
    | inl q ↦ rw (q, login) s
    | inr ((u, x), q) ↦ ground (arith, q, s, login_accepted-IsSynced fd u w s)
  ]

  pub with_function-IsSynced :
      (fd : ℤ) (pk : Package) (w : World)
      → IsSorted user_key w.users
      → IsSynced n w
      → IsSynced n (with_function e fd pk w)
  unfolding with_function
  with_function-IsSynced fd pk w v s = elim (Option-cases (find user_key (user_rev e pk) w.users)) [
    | inl q ↦ rw (q, with_function) s
    | inr ((u, x), q) ↦ ground (
      arith,
      q,
      s,
      connect_with-IsSynced fd (user_rev e pk) (if is_neg x then offlineuser else onlineuser) w
          (s.plain (user_rev e pk) (rw q)).plain v s,
    )
  ]

  pub join_room-IsSynced :
      (fd : ℤ) (pk : Package) (w : World)
      → IsSorted user_key w.users
      → IsSynced n w
      → IsSynced n (join_room e fd pk w)
  unfolding join_room
  join_room-IsSynced fd pk w v s = elim (Option-cases (find room_key (room_name e pk) w.rooms)) [
    | inl q ↦ rw (q, join_room) s
    | inr ((id, room), q) ↦ ground (
      arith,
      q,
      s,
      enter_state-IsSynced fd (room_name e pk)
          (record w { rooms = assign room_key id (add fd room).1 w.rooms }) v s,
    )
  ]
