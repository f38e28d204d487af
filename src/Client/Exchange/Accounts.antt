-- ===== src/Client/Exchange/Accounts.antt =====
-- `createNewUser` of the client and `AddUser` of the server.
use chat_service_socket_cpp.Common.{◌≡◌, some, Text, text_eq, if◌then◌else◌}
use chat_service_socket_cpp.Common.Int.{ℤ, negsuc}
use chat_service_socket_cpp.Env.{Env}
use chat_service_socket_cpp.Memory.{Memory}
use chat_service_socket_cpp.Package.{Package}
use chat_service_socket_cpp.User
use chat_service_socket_cpp.User.{User, user_key, named_user}
use chat_service_socket_cpp.StdMap.{find}
use chat_service_socket_cpp.Server.State.{World}
use chat_service_socket_cpp.Server.Users.{admitted_role}
use chat_service_socket_cpp.Server.Login.{login, login_accepted}
use chat_service_socket_cpp.Client.Package.{set_role}
use chat_service_socket_cpp.Client.Login.{line_array, password_array, login_request}
use chat_service_socket_cpp.Client.State.{Client}

-- The user of an account that was typed in.
abbrev pub typed_user : Text → Text → ℤ → User
typed_user s t r = User.set_role (admitted_role r) (named_user s t)

-- `AddUser` for the package of the form.
abbrev HasTyped : Text → Text → ℤ → Text → World → World → Type 0
HasTyped s t r k w x =
    find user_key k x.users
    ≡ (if text_eq s k then some (typed_user s t r, negsuc 0) else find user_key k w.users)

-- The accounts of a world after `AddUser`, and who logs in to the new one.
abbrev pub Opened : Env → Text → Text → ℤ → Text → ℤ → World → World → Type 0
Opened e s t r k fd w x =
    HasTyped s t r k w x
    × (login e fd (login_request e (line_array e s) (password_array e t)) x
        ≡ login_accepted e fd (typed_user s t r) x)
