-- ===== src/Server/Sync/Steps.antt =====
-- The map of users and the tables through `analyzePackage` and the end of a connection in `Execute`.
use chat_service_socket_cpp.Common.{ℕ, ◌≤◌, arith}
use chat_service_socket_cpp.Common.Int.{ℤ}
use chat_service_socket_cpp.Env.{Env, IsBinary}
use chat_service_socket_cpp.Package.{EType, Package, offlineuser}
use chat_service_socket_cpp.User.{user_key}
use chat_service_socket_cpp.StdMap.{IsSorted}
use chat_service_socket_cpp.Server.State.{World}
use chat_service_socket_cpp.Server.Offline.{notification_offline}
use chat_service_socket_cpp.Server.Listing.{find_user, show_room, get_list_roles, get_user_online}
use chat_service_socket_cpp.Server.Dispatch.{dispatch, analyze_package}
use chat_service_socket_cpp.Server.Poll.{disconnect}
use chat_service_socket_cpp.Server.Frame.{SameState-notification_offline}
use chat_service_socket_cpp.Server.Sync.{IsSynced, Returns, Admits}
use chat_service_socket_cpp.Server.Sync.Keep.{SameState-IsSynced}
use chat_service_socket_cpp.Server.Sync.Sessions.{
  login-IsSynced, with_function-IsSynced, join_room-IsSynced, change_state_user_off-IsSynced,
}
use chat_service_socket_cpp.Server.Sync.Chat.{one_to_one_chat-IsSynced, leave_chat_user-IsSynced}
use chat_service_socket_cpp.Server.Sync.Admin.{
  add_room-IsSynced, modify_room-IsSynced, delete_room-IsSynced,
}
use chat_service_socket_cpp.Server.Sync.Accounts.{
  add_user-IsSynced, delete_user-IsSynced, handle_modify_user-IsSynced,
}

-- The world of a step: the tables compare names exactly, and the buffers hold them.
module _ (n : ℕ) (e : Env) (b : IsBinary e) (long : n ≤ e.size_u) where
  pub dispatch-IsSynced :
      (fd : ℤ) (t : EType) (pk : Package) (w : World)
      → Admits n e w t pk
      → IsSorted user_key w.users
      → IsSynced n w
      → Returns (IsSynced n) (dispatch e fd t pk w)
  unfolding dispatch find_user show_room get_list_roles get_user_online
  dispatch-IsSynced fd EType.loginn pk w a v s = login-IsSynced n e b fd pk w s
  dispatch-IsSynced fd EType.withh pk w a v s = with_function-IsSynced n e b fd pk w v s
  dispatch-IsSynced fd EType.joinn pk w a v s = join_room-IsSynced n e b fd pk w v s
  dispatch-IsSynced fd EType.send_mess pk w a v s =
      one_to_one_chat-IsSynced n e b long fd pk w a v s
  dispatch-IsSynced fd EType.terminate_chat pk w a v s =
      leave_chat_user-IsSynced n e b long fd w v s
  dispatch-IsSynced fd EType.create_user pk w a v s = add_user-IsSynced n e b fd pk w a.0 a.1 s
  dispatch-IsSynced fd EType.modify_user pk w a v s = handle_modify_user-IsSynced n e b fd pk w s
  dispatch-IsSynced fd EType.delete_user pk w a v s = delete_user-IsSynced n e b fd pk w s
  dispatch-IsSynced fd EType.modify_room pk w a v s = modify_room-IsSynced n e b fd pk w s
  dispatch-IsSynced fd EType.delete_room pk w a v s = delete_room-IsSynced n e b fd pk w s
  dispatch-IsSynced fd EType.create_room pk w a v s = add_room-IsSynced n e b fd pk w a s
  dispatch-IsSynced fd _ pk w a v s = s

  -- In a server whose users are sorted by their names, where the database compares texts exactly and
  -- `n` is at most SIZE_U: if the map of users and the tables agree, with names that are not empty,
  -- shorter than `n` and not of the form "ROOM ...", then handling any package ends without an
  -- exception of the database, and they agree again. For a package that creates a user, its name must
  -- be shorter than `n` and not of that form; for one that creates a room, its id must be new to the
  -- table of rooms.
  pub analyze_package-IsSynced :
      (fd : ℤ) (pk : Package) (w : World)
      → Admits n e w pk.type pk
      → IsSorted user_key w.users
      → IsSynced n w
      → Returns (IsSynced n) (analyze_package e fd pk w)
  unfolding analyze_package
  analyze_package-IsSynced fd pk w a v s =
      ground (arith, s, dispatch-IsSynced fd pk.type pk w a v s)

  -- Under the same conditions on the server and the database, the end of a connection, with its
  -- notifications and the room that its user leaves, keeps the map and the tables in agreement.
  pub disconnect-IsSynced :
      (fd : ℤ) (w : World)
      → IsSorted user_key w.users
      → IsSynced n w
      → IsSynced n (disconnect e fd w)
  unfolding disconnect
  disconnect-IsSynced fd w v s =
      let told = notification_offline e fd offlineuser w in
      let same = SameState-notification_offline e fd offlineuser w in
      let s' : IsSynced n told = SameState-IsSynced n told w same s in
      ground (arith, s, change_state_user_off-IsSynced n e b fd told (rw same.users v) s')
