-- ===== src/Server/Dispatch.antt =====
-- `analyzePackage`
use chat_service_socket_cpp.Common.{not, ◌&&◌, some, ◌∷◌, if◌then◌else◌}
use chat_service_socket_cpp.Common.Int.{ℤ}
use chat_service_socket_cpp.Env.{Env}
use chat_service_socket_cpp.Package.{EType, Package, loginn, has_type}
use chat_service_socket_cpp.Server.State.{World, Run, sent_pointer, checkfd}
use chat_service_socket_cpp.Server.Login.{login}
use chat_service_socket_cpp.Server.Chat.{with_function, one_to_one_chat, leave_chat_user}
use chat_service_socket_cpp.Server.Rooms.{add_room, join_room, modify_room, delete_room}
use chat_service_socket_cpp.Server.Users.{add_user, delete_user, handle_modify_user}
use chat_service_socket_cpp.Server.Listing.{find_user, show_room, get_list_roles, get_user_online}

-- The `switch`: a type that no case names does nothing.
unfoldable pub dispatch : Env → ℤ → EType → Package → World → Run
dispatch e fd EType.loginn pk w = some (login e fd pk w)
dispatch e fd EType.withh pk w = some (with_function e fd pk w)
dispatch e fd EType.joinn pk w = some (join_room e fd pk w)
dispatch e fd EType.send_mess pk w = one_to_one_chat e fd pk w
dispatch e fd EType.terminate_chat pk w = some (leave_chat_user e fd w)
dispatch e fd EType.show_room pk w = some (show_room e fd w)
dispatch e fd EType.get_roles pk w = some (get_list_roles e fd w)
dispatch e fd EType.create_user pk w = add_user e fd pk w
dispatch e fd EType.modify_user pk w = handle_modify_user e fd pk w
dispatch e fd EType.delete_user pk w = delete_user e fd pk w
dispatch e fd EType.modify_room pk w = some (modify_room e fd pk w)
dispatch e fd EType.delete_room pk w = some (delete_room e fd pk w)
dispatch e fd EType.create_room pk w = add_room e fd pk w
dispatch e fd EType.getuser pk w = some (get_user_online e fd w)
dispatch e fd EType.finduser pk w = some (find_user e fd pk w)
dispatch e fd t pk w = some w

-- A client that is not logged in may only log in. The refusal is a write from `&pk`, the address of
-- the pointer to the package and not of the package.
unfoldable pub analyze_package : Env → ℤ → Package → World → Run
unfolding checkfd dispatch
analyze_package e fd pk w =
    if not (checkfd fd w) && not (has_type loginn pk)
    then some (record w { out = sent_pointer fd ∷ w.out })
    else dispatch e fd pk.type pk w
