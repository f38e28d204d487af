-- ===== src/Tests.antt =====
-- A small server, on which the theorems are applied: an administrator who is online, and a user who
-- is not.
mod Protocol
mod Handlers
mod Events
mod Runs
mod Halls
mod Clients
mod Exchange
mod Wires
use chat_service_socket_cpp.Common.{
  ℕ, refl, ◌≡◌, arith, List, [], ◌∷◌, ◌++◌, Text, text_eq, text_eq_iff, text_lt, txt, true,
}
use chat_service_socket_cpp.Common.Int.{ℤ, pos, negsuc}
use chat_service_socket_cpp.Env.{Env, IsBinary, IsReflexive}
use chat_service_socket_cpp.Package.{EType, Package}
use chat_service_socket_cpp.User.{User, State, user_key}
use chat_service_socket_cpp.Room.{Room}
use chat_service_socket_cpp.StdMap.{IsSorted, find, insert, assign}
use chat_service_socket_cpp.StdMap.Laws.{insert-IsSorted, assign-IsSorted}
use chat_service_socket_cpp.Database.Sql.{Tables, role_exists, exists}
use chat_service_socket_cpp.Database.Rows.{IsPlain, find_row}
use chat_service_socket_cpp.Database.UsersDa.{begins_with}
use chat_service_socket_cpp.Package.Fields.{FitsIn}
use chat_service_socket_cpp.Server.State.{World}
use chat_service_socket_cpp.Server.Sync.{Synced, IsSynced, IsName}
use chat_service_socket_cpp.Server.Sync.Users.{Synced-assign}
use chat_service_socket_cpp.Server.Sync.Accounts.{Synced-new, new_row}

abbrev env : Env
env = record {
  size_u = 8;
  size_p = 8;
  size_mess = 16;
  junk_message = λ b. 0;
  junk_room_id = λ b. 0;
  junk_line = λ b. 0;
  junk_fds = λ b. pos 0;
  junk_state_type = pos 0;
  junk_messages = record { mess = []; sender = []; send_time = 0 } ∷ [];
  now = 77;
  localtime = λ t. record {
    tm_mday = pos 1;
    tm_mon = pos 0;
    tm_year = pos 70;
    tm_hour = pos 0;
    tm_min = pos 1;
  };
  sql_eq = text_eq;
  sql_like = text_eq;
  takes_message = λ m t. true;
  stored_time = λ t. t;
}

env-IsReflexive : IsReflexive env
env-IsReflexive = record { same = λ t. (text_eq_iff t t).1 refl }

env-IsBinary : IsBinary env
env-IsBinary = record { exact = λ s t. refl }

-- "ann", "bob", "cy" and "hi"
abbrev ann : Text
ann = 97 ∷ 110 ∷ 110 ∷ []

abbrev bob : Text
bob = 98 ∷ 111 ∷ 98 ∷ []

abbrev cy : Text
cy = 99 ∷ 121 ∷ []

abbrev hi : Text
hi = 104 ∷ 105 ∷ []

abbrev idle : State
idle = record { type = pos 0; name = [] }

abbrev ann_user : User
ann_user = record { username = ann; password = hi; state = idle; role = pos 1 }

abbrev bob_user : User
bob_user = record { username = bob; password = hi; state = idle; role = pos 2 }

abbrev no_users : Tables
no_users = record {
  roles = record { role_id = pos 1; role = ann } ∷ record { role_id = pos 2; role = bob } ∷ [];
  users = [];
  rooms = [];
  messages = [];
}

abbrev tables : Tables
tables = record no_users { users = new_row ann_user ∷ new_row bob_user ∷ [] }

-- `ann` has the connection 4.
abbrev world : World
world = record {
  users = (ann_user, pos 4) ∷ (bob_user, negsuc 0) ∷ [];
  rooms = [];
  db = tables;
  out = [];
}

ann-IsName : IsName 8 ann
unfolding begins_with txt
ann-IsName = record {
  plain = record { not_empty = ground arith; no_room = ground arith };
  fits = record { no_nul = ground arith; short = omega arith };
}

bob-IsName : IsName 8 bob
unfolding begins_with txt
bob-IsName = record {
  plain = record { not_empty = ground arith; no_room = ground arith };
  fits = record { no_nul = ground arith; short = omega arith };
}

hi-FitsIn : FitsIn 8 hi
hi-FitsIn = record { no_nul = ground arith; short = omega arith }

nobody-FitsIn : FitsIn 8 []
nobody-FitsIn = record { no_nul = tt; short = omega arith }

no_users-Synced : Synced 8 [] no_users
unfolding find find_row role_exists exists
no_users-Synced = record {
  agree = λ t. tt;
  plain = λ t h. ground arith;
  refer = tt;
  admin = refl;
  user = refl;
}

world-IsSynced : IsSynced 8 world
unfolding find find_row insert text_eq text_lt
world-IsSynced =
    let one = Synced-new 8 [] no_users ann_user (pos 4) no_users-Synced refl refl ann-IsName refl in
    Synced-new 8 ((ann_user, pos 4) ∷ []) (record no_users { users = new_row ann_user ∷ [] })
      bob_user (negsuc 0) one refl refl bob-IsName refl

world-IsSorted : IsSorted user_key world.users
unfolding text_lt
world-IsSorted = ((refl, tt), (tt, tt))
