-- ===== src/Client/Exchange/Recovery.antt =====
-- The client finds a server that was gone, and logs its user in again.
use chat_service_socket_cpp.Common.{
  txt, ◌≡◌, refl, true, false, arith, some, [], ◌∷◌, ◌++◌, List, Text, ap, ◌∙◌, All,
}
use chat_service_socket_cpp.Common.Int.{ℤ, pos, int_eq, is_neg}
use chat_service_socket_cpp.Env.{Env}
use chat_service_socket_cpp.Memory.{IsInt}
use chat_service_socket_cpp.Package.{EType, Package, set_type}
use chat_service_socket_cpp.Package.Fields.{FitsIn}
use chat_service_socket_cpp.User as Server
use chat_service_socket_cpp.Server.State.{World}
use chat_service_socket_cpp.Server.Login.{login_package}
use chat_service_socket_cpp.Server.Dispatch.{analyze_package}
use chat_service_socket_cpp.Client.Package.{package_of, set_up}
use chat_service_socket_cpp.Client.Loop.{top}
use chat_service_socket_cpp.Client.User.{get_username, get_password}
use chat_service_socket_cpp.Client.State.{Client, send_package, send, say_line}
use chat_service_socket_cpp.Client.Receiver.{receiver_handler, reconnect, lose_server}
use chat_service_socket_cpp.Client.Connect.{
  Attempt, found, look_for_server, server_gone, connect_server, retry_connect, start_connected,
}
use chat_service_socket_cpp.Client.Main.{start, new_client, run, step, closed, reconnected}
use chat_service_socket_cpp.Client.Exchange.Login.{
  login_by, set_up_fields, analyze_package-login, login-login_by,
}
use chat_service_socket_cpp.Client.Exchange.Session.{login_package-log_in}

-- A socket that is there, and a server that is not.
pub record IsRefused (a : Attempt) : Type 0 where
  pub made : is_neg a.socket ≡ false
  pub refused : is_neg a.connect ≡ true

pub record Reaches (a : Attempt) : Type 0 where
  pub made : is_neg a.socket ≡ false
  pub connected : is_neg a.connect ≡ false

look_for_server-found :
    (before rest : List Attempt) (a : Attempt) (c : Client)
    → All IsRefused before
    → Reaches a
    → look_for_server (before ++ a ∷ rest) c ≡ found c
unfolding look_for_server
look_for_server-found [] rest a c h r = ground (arith, r)
look_for_server-found (b ∷ before) rest a c h r =
    ground (arith, h.0, look_for_server-found before rest a c h.1 r)

-- However many attempts are refused, the search ends with the first that is not, and the receiving
-- thread then has made just the two steps of the model: the connection ends, and is there again.
pub server_gone-found :
    (e : Env) (before rest : List Attempt) (a : Attempt) (c : Client)
    → All IsRefused before
    → Reaches a
    → server_gone e (before ++ a ∷ rest) c ≡ found (run e (closed ∷ reconnected ∷ []) c)
unfolding server_gone run step lose_server
server_gone-found e before rest a c h r =
    ground (arith, look_for_server-found before rest a (lose_server c) h r)

-- What the client sends when it has found the server.
abbrev pub again_request : Env → Text → Text → Package
again_request e s t = set_up e s t (package_of e EType.loginn)

recovered :
    (e : Env) (s t : Text) (c : Client)
    → c.user.flag_l ≡ true
    → get_username e c.user ≡ s
    → get_password e c.user ≡ t
    → let d = run e (closed ∷ reconnected ∷ []) c in
      (d.sent ≡ again_request e s t ∷ c.sent) × (d.flag_check ≡ false) × (d.prompt ≡ c.prompt)
unfolding run step lose_server reconnect send_package send
recovered e s t c l h k = ground (arith, l, h, k)

-- The server answers the package by the name and the password in it.
analyze_package-again :
    (e : Env) (fd : ℤ) (s t : Text) (w : World)
    → FitsIn e.size_u s
    → FitsIn e.size_p t
    → analyze_package e fd (again_request e s t) w ≡ some (login_by e fd s t w)
analyze_package-again e fd s t w f g =
    let fields = set_up_fields e s t (package_of e EType.loginn) f g in
    analyze_package-login e fd (again_request e s t) w
      (unfold set_up in unfold package_of in unfold set_type in refl)
    ∙ ap some (login-login_by e fd (again_request e s t) w s t fields.0 fields.1)

-- A session survives the loss of the server. Let a client receive the package with which the server
-- lets a user in, whose data fit their arrays; then let the connection end, and the client look for the
-- server: any number of attempts is refused, and one reaches it. Then the receiving thread comes back
-- from its search with a connection, the main thread stands where it stood, and the client has sent one
-- more package, to which the server answers as to a login with this user's name and password.
pub server_gone-login :
    (e : Env) (u : Server.User) (c : Client) (before rest : List Attempt) (a : Attempt) (fd : ℤ)
    (w : World)
    → FitsIn e.size_u u.username
    → FitsIn e.size_p u.password
    → FitsIn e.size_u u.state.name
    → IsInt u.role
    → All IsRefused before
    → Reaches a
    → let d = receiver_handler e (login_package e u) c in
      let back = run e (closed ∷ reconnected ∷ []) d in
      let p = again_request e u.username u.password in
      (server_gone e (before ++ a ∷ rest) d ≡ found back)
      × (back.flag_check ≡ false)
      × (back.prompt ≡ d.prompt)
      × (back.sent ≡ p ∷ d.sent)
      × (analyze_package e fd p w ≡ some (login_by e fd u.username u.password w))
server_gone-login e u c before rest a fd w fu fw fs i refused reaches =
    let d = receiver_handler e (login_package e u) c in
    let user = login_package-log_in e u c fu fw fs i in
    let back = recovered e u.username u.password d user.0 user.1 user.2 in
    (
      server_gone-found e before rest a d refused reaches,
      back.1,
      back.2,
      back.0,
      analyze_package-again e fd u.username u.password w fu fw,
    )

retry_connect-established :
    (before rest : List ℤ) (c : Client)
    → All (λ (rc : ℤ). int_eq rc (pos 0) ≡ false) before
    → retry_connect (before ++ pos 0 ∷ rest) c ≡ some (say_line (txt "Connection established!") c)
unfolding retry_connect
retry_connect-established [] rest c h = ground arith
retry_connect-established (rc ∷ before) rest c h =
    ground (arith, h.0, retry_connect-established before rest c h.1)

-- At its start, the client waits for the server as long as it is refused, and says so once; then it
-- stands at its first prompt.
start_connected-start :
    (e : Env) (rc : ℤ) (before rest : List ℤ)
    → int_eq rc (pos 0) ≡ false
    → All (λ (r : ℤ). int_eq r (pos 0) ≡ false) before
    → (start_connected e (pos 0 ∷ rest) ≡ some (start e))
      × (start_connected e (rc ∷ before ++ pos 0 ∷ rest)
          ≡ some (
              top e (
                say_line
                  (txt "Connection established!")
                  (say_line (txt "Waiting for server online...") (new_client e)))))
unfolding start_connected connect_server start
start_connected-start e rc before rest h k = (
  refl,
  ground (
    arith,
    h,
    retry_connect-established before rest
        (say_line (txt "Waiting for server online...") (new_client e)) k,
  ),
)
