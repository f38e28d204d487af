-- ===== src/Client/Exchange/With.antt =====
-- `?with` at the client, `WithFunction` of the server, and `case withSuccess` of the client.
use chat_service_socket_cpp.Common.{◌∷◌, Text, if◌then◌else◌}
use chat_service_socket_cpp.Common.Int.{ℤ, pos, is_neg}
use chat_service_socket_cpp.Env.{Env}
use chat_service_socket_cpp.Memory.{str_to_char}
use chat_service_socket_cpp.Package.{
  EType, Package, fresh, set_type, set_type_with, with_success, onlineuser, offlineuser,
}
use chat_service_socket_cpp.User.{User, set_state}
use chat_service_socket_cpp.Database.Access
use chat_service_socket_cpp.Server.State.{World, write, replace_user}
use chat_service_socket_cpp.Client.Package.{set_rev}
use chat_service_socket_cpp.Client.State.{Phase, Client, wait_command}

-- The line "?with " and a name, and the package that it makes.
abbrev pub with_line : Text → Text
with_line name = 63 ∷ 119 ∷ 105 ∷ 116 ∷ 104 ∷ 32 ∷ name

abbrev pub with_request : Text → Client → Package
with_request name c = set_rev (str_to_char name) (set_type EType.withh c.pkg)

-- The client behind the command.
abbrev asked : Text → Client → Client
asked name c = record c {
  userw = name;
  pkg = with_request name c;
  sent = with_request name c ∷ c.sent;
  prompt = wait_command;
  phase = Phase.before_test;
}

-- The status that the server sends.
abbrev pub status_of : ℤ → EType
status_of v = if is_neg v then offlineuser else onlineuser

-- What `WithFunction` leaves behind: the sender is in a conversation with `name`, in the map and in the
-- table, and the newest write is the answer.
abbrev pub connected : Env → ℤ → Text → ℤ → User → World → World
connected e fd name v u w =
    let s = set_state (pos 1) name u in
    write fd (set_type_with e (status_of v) (fresh e with_success))
      (record (replace_user s fd w) { db = Access.update_state e s w.db })
