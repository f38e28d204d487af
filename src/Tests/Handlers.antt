-- ===== src/Tests/Handlers.antt =====
-- The theorems on the server, at the small server.
use chat_service_socket_cpp.Common.{
  refl, ◌≡◌, true, [], ◌∷◌, some, none, Text, text_eq, if◌then◌else◌,
}
use chat_service_socket_cpp.Common.Int.{pos, negsuc}
use chat_service_socket_cpp.Memory.{str_to_char, strcpy, cstr, poke}
use chat_service_socket_cpp.Package.{
  EType, Package, fresh, set_up, u_name, p_word, field, code, p_word_at, size_message, align,
}
use chat_service_socket_cpp.User.{user_key}
use chat_service_socket_cpp.Room.{Room, add, set_room_id}
use chat_service_socket_cpp.StdMap.{find, first}
use chat_service_socket_cpp.Database.Access
use chat_service_socket_cpp.Database.Rows.{find_row}
use chat_service_socket_cpp.Server.State.{World, checkfd, check_admin, find_user_by_fd}
use chat_service_socket_cpp.Server.Login.{login}
use chat_service_socket_cpp.Server.Users
use chat_service_socket_cpp.Server.Users.{add_user, admitted_role}
use chat_service_socket_cpp.Server.Dispatch.{dispatch, analyze_package}
use chat_service_socket_cpp.Server.Poll.{Ready, got, init, execute}
use chat_service_socket_cpp.Server.Guards.{
  Unchanged, unauthenticated_lem, admin_only, delete_user-any_role,
}
use chat_service_socket_cpp.Server.Sessions.{login-users, login-no_reply}
use chat_service_socket_cpp.Server.Invariant.Loop.{Serves, execute-init-IsValid}
use chat_service_socket_cpp.Server.Sync.{Returns}
use chat_service_socket_cpp.Tests.{
  env, env-IsBinary, ann, bob, cy, hi, ann_user, bob_user, tables, world,
}

-- A package with a name and the password "hi".
abbrev about : Text → EType → Package
about name t = set_up env name hi (fresh env t)

-- A client connects, and logs in as "ann".
abbrev connecting : Ready
connecting = record {
  revents = λ i. true;
  nready = 2;
  connfd = pos 4;
  reads = λ i. got (about ann EType.loginn);
}

execute-init-IsValid_example :
    Serves (execute ((env, connecting) ∷ (env, connecting) ∷ []) (init env (pos 3) tables))
execute-init-IsValid_example =
    execute-init-IsValid env (pos 3) tables ((env, connecting) ∷ (env, connecting) ∷ [])

unauthenticated_lem_example :
    Unchanged world (analyze_package env (pos 9) (about ann EType.loginn) world)
unfolding checkfd first u_name set_up field cstr strcpy poke size_message align p_word_at fresh find
    text_eq code
unauthenticated_lem_example =
    unauthenticated_lem env (pos 9) (about ann EType.loginn) world refl refl

-- Both are online, and there is a room "cy" for two, in which "bob" is.
abbrev room : Room
room =
    set_room_id cy
      (record { capacity = 2; available_users = 1; fd_room_members = λ i. pos 5; room_id = λ b. 7 })

abbrev both_online : World
both_online = record world {
  users =
      (ann_user, pos 4)
      ∷ (record bob_user { state = record { type = pos 2; name = cy } }, pos 5)
      ∷ [];
  rooms = (cy, room) ∷ [];
}

admin_only_example :
    Unchanged both_online
      (dispatch env (pos 5) EType.delete_user (about ann EType.delete_user) both_online)
unfolding find_user_by_fd first
admin_only_example =
    admin_only env (pos 5) EType.delete_user (about ann EType.delete_user) both_online refl refl

delete_user-any_role_example :
    Returns
      (λ x.
        (find user_key bob x.users ≡ (
          if text_eq (u_name env (about bob EType.delete_user)) bob
          then none
          else find user_key bob world.users))
        × (find_row bob x.db.users ≡ (
            if text_eq (u_name env (about bob EType.delete_user)) bob
            then none
            else find_row bob world.db.users)))
      (Users.delete_user env (pos 4) (about bob EType.delete_user) world)
unfolding check_admin first u_name set_up field cstr strcpy poke size_message align p_word_at fresh
    find text_eq Access.have_offline_message
delete_user-any_role_example =
    delete_user-any_role env (pos 4) (about bob EType.delete_user) world bob_user (negsuc 0) bob
      env-IsBinary refl refl refl refl

login-users_example : find user_key bob (login env (pos 4) (about bob EType.loginn) world).users ≡ (
    if text_eq (u_name env (about bob EType.loginn)) bob
    then some (bob_user, pos 4)
    else find user_key bob world.users)
unfolding u_name p_word set_up field cstr strcpy poke size_message align p_word_at fresh find
    text_eq str_to_char
login-users_example =
    login-users env (pos 4) (about bob EType.loginn) world bob_user (negsuc 0) bob refl refl refl

-- "bob" was in the room "cy", which is now full.
abbrev full_room : World
full_room = record world {
  users =
      (ann_user, pos 4)
      ∷ (record bob_user { state = record { type = pos 2; name = cy } }, negsuc 0)
      ∷ [];
  rooms = (cy, record room { capacity = 1 }) ∷ [];
}

login-no_reply_example :
    ((login env (pos 6) (about bob EType.loginn) full_room).out ≡ full_room.out)
    × (find user_key
          (u_name env (about bob EType.loginn))
          (login env (pos 6) (about bob EType.loginn) full_room).users
        ≡ some (record bob_user { state = record { type = pos 2; name = cy } }, pos 6))
unfolding u_name p_word set_up field cstr strcpy poke size_message align p_word_at fresh find
    text_eq str_to_char add set_room_id
login-no_reply_example =
    login-no_reply env (pos 6) (about bob EType.loginn) full_room
      (record bob_user { state = record { type = pos 2; name = cy } }) (negsuc 0) cy
      (record room { capacity = 1 }) refl refl refl refl refl refl
