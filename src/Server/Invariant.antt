-- ===== src/Server/Invariant.antt =====
-- The well-formedness of the server's maps; the modules below are about the handlers and the event
-- loop of sock_connect.cpp.
pub mod Sessions
pub mod Handlers
pub mod Loop
use chat_service_socket_cpp.Common.{◌≡◌, refl, Text, List, none, some}
use chat_service_socket_cpp.Common.Int.{ℤ}
use chat_service_socket_cpp.Env.{Env}
use chat_service_socket_cpp.Package.{EType}
use chat_service_socket_cpp.User.{User, user_key}
use chat_service_socket_cpp.Room.{Room}
use chat_service_socket_cpp.Room.Laws
use chat_service_socket_cpp.StdMap.{IsSorted, insert, erase}
use chat_service_socket_cpp.StdMap.Laws.{Values, insert-IsSorted, erase-IsSorted}
use chat_service_socket_cpp.Database.RoomsDa.{room_key}
use chat_service_socket_cpp.Server.State.{World, Run, replace_user}

-- Names are the keys of one entry each, and no room holds a client twice or more clients than fit.
pub record MapsValid (users : List (User × ℤ)) (rooms : List (Text × Room)) : Type 0 where
  pub users_sorted : IsSorted user_key users
  pub rooms_sorted : IsSorted room_key rooms
  pub rooms_valid : Values room_key Laws.IsValid rooms

abbrev pub IsValid : World → Type 0
IsValid w = MapsValid w.users w.rooms

-- What holds of the world in which a handler ends.
abbrev pub Ends : (World → Type 0) → Run → Type 0
Ends P none = Unit
Ends P (some w) = P w

pub replace-IsSorted :
    (u : User) (fd : ℤ) (m : List (User × ℤ))
    → IsSorted user_key m
    → IsSorted user_key (insert user_key u fd (erase user_key u.username m))
replace-IsSorted u fd m s =
    insert-IsSorted user_key u fd (erase user_key u.username m)
      (erase-IsSorted user_key u.username m s)

pub replace_user-IsValid :
    (u : User) (fd : ℤ) (w : World) → IsValid w → IsValid (replace_user u fd w)
unfolding replace_user
replace_user-IsValid u fd w v = record {
  users_sorted = replace-IsSorted u fd w.users v.users_sorted;
  rooms_sorted = v.rooms_sorted;
  rooms_valid = v.rooms_valid;
}
