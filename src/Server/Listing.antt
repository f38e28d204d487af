-- ===== src/Server/Listing.antt =====
-- What clients ask for lists: `FindUser`, `ShowRoom`, `getListRoles` and `getUserOnline`.
use chat_service_socket_cpp.Common.{
  ℕ, ◌+◌, Bool, true, false, none, some, List, [], ◌∷◌, ◌++◌, Text, txt, text_eq, if◌then◌else◌,
  length, ◌==◌,
}
use chat_service_socket_cpp.Common.Int.{ℤ, pos, is_pos}
use chat_service_socket_cpp.Env.{Env}
use chat_service_socket_cpp.Memory.{str_to_char}
use chat_service_socket_cpp.Package.{Package, show_users, all_room, show_roles, mess}
use chat_service_socket_cpp.User.{User, user_key}
use chat_service_socket_cpp.Room.{Room, get_room_id}
use chat_service_socket_cpp.StdMap.{find}
use chat_service_socket_cpp.Database.RolesDa.{to_string}
use chat_service_socket_cpp.Database.Access
use chat_service_socket_cpp.Server.State.{World, reply}

-- A user's name, with a star if online.
unfoldable pub starred : User × ℤ → Text
unfolding txt
starred (u, v) = if is_pos v then u.username ++ txt "*" else u.username

-- The loop over the map, where `counter` entries are done of `n`.
unfoldable pub list_entries : ℕ → ℕ → List (User × ℤ) → Text
unfolding starred
list_entries counter n [] = []
list_entries counter n (x ∷ m) =
    starred x ++ (if counter + 1 == n then [] else txt " | ") ++ list_entries (counter + 1) n m

-- The loop over the `n` users that the database found; one that the map does not have is skipped.
unfoldable pub list_targets : ℕ → ℕ → List (User × ℤ) → List User → Text
unfolding starred
list_targets counter n m [] = []
list_targets counter n m (target ∷ targets) =
    let skipped = list_targets counter n m targets in
    let rest = list_targets (counter + 1) n m targets in
    elim (find user_key target.username m) [
      | none ↦ skipped
      | some x ↦ starred x ++ (if counter + 1 == n then [] else txt " | ") ++ rest
    ]

unfoldable pub found_text : Env → Text → World → Text
unfolding list_entries list_targets
found_text e target w =
    let n = Access.count_user_with_name e target w.db in
    if text_eq target (txt "*")
    then txt "[" ++ list_entries 0 (length w.users) w.users ++ txt "]"
    else if n == 0
    then txt "No users found!"
    else txt "[" ++ list_targets 0 n w.users (Access.find_user_with_name e target w.db) ++ txt "]"

-- `FindUser`
unfoldable pub find_user : Env → ℤ → Package → World → World
unfolding found_text reply
find_user e fd pk w = reply e fd show_users (str_to_char (found_text e (mess e pk) w)) w

unfoldable pub room_line : Room → Text
unfolding txt to_string
room_line r =
    txt "RoomID: "
    ++ get_room_id r
    ++ txt " | Capacity: "
    ++ to_string (pos r.available_users)
    ++ txt "/"
    ++ to_string (pos r.capacity)

unfoldable pub room_lines : List (Text × Room) → Text
unfolding room_line
room_lines [] = []
room_lines ((id, r) ∷ []) = room_line r
room_lines ((id, r) ∷ x ∷ m) = room_line r ++ txt "\n " ++ room_lines (x ∷ m)

-- `ShowRoom`
unfoldable pub show_room : Env → ℤ → World → World
unfolding room_lines reply
show_room e fd w = reply e fd all_room (str_to_char (txt "[" ++ room_lines w.rooms ++ txt "]")) w

-- `getListRoles`
unfoldable pub get_list_roles : Env → ℤ → World → World
unfolding reply
get_list_roles e fd w = reply e fd show_roles (str_to_char (Access.get_all_roles w.db)) w

-- The loop of `getUserOnline`, where `is_first` says that no name is written yet.
unfoldable pub online_names : Bool → List (User × ℤ) → Text
unfolding txt
online_names is_first [] = []
online_names is_first ((u, v) ∷ m) =
    let skipped = online_names is_first m in
    let rest = online_names false m in
    if is_pos v then (if is_first then [] else txt "|") ++ u.username ++ rest else skipped

-- `getUserOnline`
unfoldable pub get_user_online : Env → ℤ → World → World
unfolding online_names reply
get_user_online e fd w =
    reply e fd show_users (str_to_char (txt "[" ++ online_names true w.users ++ txt "]")) w
