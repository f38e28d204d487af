-- ===== src/Server/Sync/Admin.antt =====
-- The map of users and the tables through `addRoom`, `ModifyRoom` and `DeleteRoom`.
use chat_service_socket_cpp.Common.{ℕ, ◌≡◌, true, arith, is_some, Option-cases, inl, inr}
use chat_service_socket_cpp.Common.Int.{ℤ}
use chat_service_socket_cpp.Env.{Env, IsBinary}
use chat_service_socket_cpp.Package.{Package, room_name, room_capacity}
use chat_service_socket_cpp.Room.{make_room, set_capacity, set_room_id}
use chat_service_socket_cpp.StdMap.{find}
use chat_service_socket_cpp.Database.RoomsDa.{room_key}
use chat_service_socket_cpp.Database.Access
use chat_service_socket_cpp.Server.State.{World}
use chat_service_socket_cpp.Server.Rooms.{add_room, modify_room, delete_room}
use chat_service_socket_cpp.Server.Sync.{IsSynced, Returns}
use chat_service_socket_cpp.Server.Sync.Keep.{Synced-rooms, Synced-insert_room}

-- The world of a step: the tables compare names exactly.
module _ (n : ℕ) (e : Env) (b : IsBinary e) where
  pub add_room-IsSynced :
      (fd : ℤ) (pk : Package) (w : World)
      → is_some (Access.insert_room e (make_room e (room_name e pk) (room_capacity e pk)) w.db)
        ≡ true
      → IsSynced n w
      → Returns (IsSynced n) (add_room e fd pk w)
  unfolding add_room
  add_room-IsSynced fd pk w fresh_id s =
      let room = make_room e (room_name e pk) (room_capacity e pk) in
      elim (Option-cases (Access.insert_room e room w.db)) [
        | inl q ↦ absurd (ground (arith, q))
        | inr (db, q) ↦ ground (arith, q, s, Synced-insert_room n e w.users room w.db db s q)
      ]

  pub modify_room-IsSynced :
      (fd : ℤ) (pk : Package) (w : World) → IsSynced n w → IsSynced n (modify_room e fd pk w)
  unfolding modify_room Access.modify_room_db
  modify_room-IsSynced fd pk w s = elim (Option-cases (find room_key (room_name e pk) w.rooms)) [
    | inl q ↦ ground (arith, q, s)
    | inr ((id, room), q) ↦
        let changed = set_capacity e (room_capacity e pk) (set_room_id (room_name e pk) room) in
        ground
          (arith, q, s, Synced-rooms n w.users w.db (Access.modify_room_db e changed w.db).rooms s)
  ]

  pub delete_room-IsSynced :
      (fd : ℤ) (pk : Package) (w : World) → IsSynced n w → IsSynced n (delete_room e fd pk w)
  unfolding delete_room Access.delete_room_db
  delete_room-IsSynced fd pk w s = elim (Option-cases (find room_key (room_name e pk) w.rooms)) [
    | inl q ↦ ground (arith, q, s)
    | inr ((id, room), q) ↦
        ground
          (arith, q, s, Synced-rooms n w.users w.db (Access.delete_room_db e room w.db).rooms s)
  ]
