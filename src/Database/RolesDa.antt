-- ===== src/Database/RolesDa.antt =====
-- server/responsibility/rolesDA.cpp, and the decimal `to_string` that it and the server use.
use chat_service_socket_cpp.Common.{
  ℕ, zero, suc, ◌+◌, ◌/◌, ◌%◌, List, [], ◌∷◌, ◌++◌, Text, txt, ltb, if◌then◌else◌,
}
use chat_service_socket_cpp.Common.Int.{ℤ, pos, negsuc}
use chat_service_socket_cpp.Database.Sql.{Tables, RoleRow}

-- The digits of `n` before `acc`; a number has at most as many digits as its value plus one.
unfoldable pub digits : ℕ → ℕ → Text → Text
digits zero n acc = acc
digits (suc fuel) n acc =
    let rest = digits fuel (n / 10) ((48 + n % 10) ∷ acc) in
    if ltb n 10 then (48 + n) ∷ acc else rest

unfoldable pub to_string : ℤ → Text
unfolding digits
to_string (pos n) = digits (n + 1) n []
to_string (negsuc n) = b'-' ∷ digits (n + 2) (n + 1) []

unfoldable pub role_lines : List RoleRow → Text
unfolding to_string txt
role_lines [] = []
role_lines (row ∷ rows) =
    txt "*" ++ to_string row.role_id ++ txt ". " ++ row.role ++ txt "\n" ++ role_lines rows

-- `rolesDA::getAllRoles`
unfoldable pub get_all_roles : Tables → Text
unfolding role_lines
get_all_roles db = txt "**\n" ++ role_lines db.roles ++ txt "**\n Defaut is number 2. USER!"
