-- ===== src/User.antt =====
-- server/models/user.h and user.cpp: a user, and what the server puts in a `map<user, int>`.
use chat_service_socket_cpp.Common.{Text, []}
use chat_service_socket_cpp.Common.Int.{ℤ, pos}
use chat_service_socket_cpp.Env.{Env}

-- struct STATE: 0 is empty, 1 is with a user, 2 is in a room.
pub record State : Type 0 where
  pub type : ℤ
  pub name : Text

pub record User : Type 0 where
  pub username : Text
  pub password : Text
  pub state : State
  pub role : ℤ

-- `user()`: the type of the state is not initialised.
unfoldable pub new_user : Env → User
new_user e = record {
  username = [];
  password = [];
  state = record { type = e.junk_state_type; name = [] };
  role = pos 0;
}

-- `user(uname, pword)`
unfoldable pub named_user : Text → Text → User
named_user uname pword = record {
  username = uname;
  password = pword;
  state = record { type = pos 0; name = [] };
  role = pos 0;
}

unfoldable pub set_username : Text → User → User
set_username t u = record u { username = t }

unfoldable pub set_password : Text → User → User
set_password t u = record u { password = t }

unfoldable pub set_state : ℤ → Text → User → User
set_state type name u = record u { state = record { type = type; name = name } }

unfoldable pub set_role : ℤ → User → User
set_role r u = record u { role = r }

-- What `operator<` compares: the key of a `StdMap` of users.
abbrev pub user_key : User → Text
user_key u = u.username
