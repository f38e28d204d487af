-- ===== src/Client/User.antt =====
-- client/models/user.h and user.cpp: the user of a client. The object has the arrays of `struct login`
-- in the same order, so its fields stand at the offsets of that struct; `flag_l` stands behind them.
use chat_service_socket_cpp.Common.{Bool, false, Text, []}
use chat_service_socket_cpp.Common.Int.{ℤ, pos}
use chat_service_socket_cpp.Env.{Env}
use chat_service_socket_cpp.Memory.{Memory, strcpy, write_word, read_word, word_of_int, int_of_word}
use chat_service_socket_cpp.Package.{field, p_word_at, state_at, role_at}

pub record User : Type 0 where
  pub fields : Memory
  pub flag_l : Bool

module _ (e : Env) where
  unfoldable pub set_username : Text → User → User
  unfolding strcpy
  set_username t u = record u { fields = strcpy 0 t u.fields }

  unfoldable pub set_password : Text → User → User
  unfolding strcpy p_word_at
  set_password t u = record u { fields = strcpy (p_word_at e) t u.fields }

  unfoldable pub set_state : Text → User → User
  unfolding strcpy state_at
  set_state t u = record u { fields = strcpy (state_at e) t u.fields }

  unfoldable pub set_roles : ℤ → User → User
  unfolding role_at write_word word_of_int
  set_roles r u = record u { fields = write_word 4 (role_at e) (word_of_int r) u.fields }

  -- The getters copy the text of an array, up to its first NUL.
  unfoldable pub get_username : User → Text
  unfolding field
  get_username u = field e 0 u.fields

  unfoldable pub get_password : User → Text
  unfolding field p_word_at
  get_password u = field e (p_word_at e) u.fields

  unfoldable pub get_state : User → Text
  unfolding field state_at
  get_state u = field e (state_at e) u.fields

  unfoldable pub get_roles : User → ℤ
  unfolding role_at read_word int_of_word
  get_roles u = int_of_word (read_word 4 (role_at e) u.fields)

  -- `user()`
  unfoldable pub new_user : User
  unfolding set_username set_password set_state set_roles
  new_user = set_roles (pos 0) (
      set_state []
        (set_password [] (set_username [] (record { fields = e.junk_line; flag_l = false }))))
