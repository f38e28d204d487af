-- ===== src/Server/State.antt =====
-- The state of the server between two packages, what it writes to its clients, and the lookups of
-- sock_connect.cpp in the map of users.
use chat_service_socket_cpp.Common.{
  Bool, not, ◌&&◌, Option, none, some, List, [], ◌∷◌, Text, text_eq, is_some,
}
use chat_service_socket_cpp.Common.Int.{ℤ, pos, negsuc, int_eq}
use chat_service_socket_cpp.Env.{Env}
use chat_service_socket_cpp.Package.{EType, Package, fresh, set_mess}
use chat_service_socket_cpp.User.{User, new_user, user_key}
use chat_service_socket_cpp.Room.{Room}
use chat_service_socket_cpp.StdMap.{find, first, insert, erase}
use chat_service_socket_cpp.Database.Sql.{Tables}

pub data Output : Type 0 where
  -- write(fd, &package, sizeof(package))
  sent : ℤ → Package → Output
  -- a write of the bytes that start at a local pointer to the package
  sent_pointer : ℤ → Output
  -- write(fd, "too many client", MAXLINE)
  sent_text : ℤ → Text → Output
  -- close(fd)
  closed : ℤ → Output

pub record World : Type 0 where
  pub users : List (User × ℤ)
  pub rooms : List (Text × Room)
  pub db : Tables
  -- newest first
  pub out : List Output

-- A handler either ends, or the connector's `SQLException` ends the process, as nothing catches it.
abbrev pub Run : Type 0
Run = Option World

unfoldable pub write : ℤ → Package → World → World
write fd p w = record w { out = sent fd p ∷ w.out }

-- package newpk; newpk.setType(t); newpk.setMess(text); write(fd, &newpk, sizeof(package));
unfoldable pub reply : Env → ℤ → EType → Text → World → World
unfolding write
reply e fd t text w = write fd (set_mess e text (fresh e t)) w

-- `findUserByfd`
unfoldable pub find_user_by_fd : Env → ℤ → World → User
find_user_by_fd e fd w = elim (first user_key (λ v. int_eq v fd) w.users) [
  | none ↦ new_user e
  | some (u, v) ↦ u
]

-- `checkfd`
unfoldable pub checkfd : ℤ → World → Bool
checkfd fd w = is_some (first user_key (λ v. int_eq v fd) w.users)

-- `getfdUsername`
unfoldable pub getfd_username : Text → World → ℤ
getfd_username t w = elim (find user_key t w.users) [ none ↦ negsuc 0 | some (u, v) ↦ v ]

-- `CheckAdmin`
unfoldable pub check_admin : Env → ℤ → World → Bool
unfolding find_user_by_fd
check_admin e fd w =
    let u = find_user_by_fd e fd w in not (text_eq u.username []) && int_eq u.role (pos 1)

-- `mapuser.erase(it->first); mapuser.insert(pair<user,int>(u, fd))`, where `it` is at the name of `u`.
unfoldable pub replace_user : User → ℤ → World → World
replace_user u fd w = record w { users = insert user_key u fd (erase user_key u.username w.users) }

-- The loops that skip the offline users and take the entry of `fd`.
abbrev pub is_online_at : ℤ → ℤ → Bool
is_online_at fd v = not (int_eq v (negsuc 0)) && int_eq v fd
