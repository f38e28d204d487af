-- ===== src/Client/Exchange/Wire.antt =====
-- A login from the keyboard of a client, over the bytes of the connection, to the state of the server:
-- loginHandler and sendPackage of client/service/client.cpp, Execute, analyzePackage and Login of
-- server/service/sock_connect.cpp.
use chat_service_socket_cpp.Common.{
  ℕ, zero, suc, ◌+◌, ◌-◌, ◌≡◌, ◌<◌, refl, arith, [], ◌∷◌, ap, ◌∙◌, Text, some, false,
}
use chat_service_socket_cpp.Env.{Env}
use chat_service_socket_cpp.Memory.{Memory, cstr}
use chat_service_socket_cpp.Package.{
  EType, Package, code, field, size_message, u_name, p_word, p_word_at, set_type,
}
use chat_service_socket_cpp.Package.Fields.{FitsIn, sizes}
use chat_service_socket_cpp.Package.Wire.{
  package_size, written, read_package, Agrees, read_package-written,
}
use chat_service_socket_cpp.Server.Poll.{Server, got, handle_entry}
use chat_service_socket_cpp.Client.State.{Client, Phase, enter_username, wait_login}
use chat_service_socket_cpp.Client.Package.{package_of, set_up}
use chat_service_socket_cpp.Client.Login.{login_request, line_array, password_array}
use chat_service_socket_cpp.Client.Main.{run, line}
use chat_service_socket_cpp.Client.Exchange.Login.{
  login_by, analyze_package-login, login-login_by, login-typed, typed_fields,
}

cstr_agrees :
    (n o : ℕ) (m m' : Memory) → ((i : ℕ) → i < o + n → m i ≡ m' i) → cstr n o m ≡ cstr n o m'
unfolding cstr
cstr_agrees zero o m m' h = refl
cstr_agrees (suc n) o m m' h =
    let rest = cstr_agrees n (o + 1) m m' (λ i l. h i (omega (arith, l))) in
    ground (arith, rest, h o (omega arith))

-- The readers of a login give the same for packages that agree.
Agrees-login :
    (e : Env) (p q : Package) → Agrees e p q → (u_name e p ≡ u_name e q) × (p_word e p ≡ p_word e q)
unfolding u_name p_word field p_word_at
Agrees-login e p q a = (
  cstr_agrees (size_message e - 0) 0 p.message q.message (λ i l. a.bytes i (omega (arith, l))),
  cstr_agrees (size_message e - e.size_u) e.size_u p.message q.message
      (λ i l. a.bytes i (omega (arith, l, sizes e))),
)

handle_entry-login :
    (e : Env) (i : ℕ) (q : Package) (v : Server) (s t : Text)
    → q.type ≡ EType.loginn
    → u_name e q ≡ s
    → p_word e q ≡ t
    → handle_entry e i (got q) v ≡ some (record v { world = login_by e (v.fds i) s t v.world })
unfolding handle_entry
handle_entry-login e i q v s t h n w =
    let answer =
      analyze_package-login e (v.fds i) q v.world h
      ∙ ap some (login-login_by e (v.fds i) q v.world s t n w) in
    ground (arith, answer)

-- A login from the keyboard to the server's state. A user types a name and a password at the start, which
-- fit their arrays, at a client with a connection: the client sends one package and will wait. However
-- the padding of the package and the memory that the server reads it into are filled, and whatever
-- follows it on the connection: a read of a whole package gives the server one with which the
-- loop of `Execute` answers the connection by the name and the password that were typed. It accepts the
-- user of that name, if not online and of that password, and refuses an unknown name, a user who is
-- online and a wrong password, each with its message; the loop's other state stays as it is.
pub login-over_wire :
    (e : Env) (s t : Text) (c : Client) (junk pad rest : Memory) (i : ℕ) (v : Server)
    → FitsIn e.size_u s
    → FitsIn e.size_p t
    → c.prompt ≡ enter_username
    → c.phase ≡ Phase.reading
    → c.flag_check ≡ false
    → let d = run e (line s ∷ line t ∷ []) c in
      let p = login_request e (line_array e s) (password_array e t) in
      let read = read_package junk (package_size e) (written e pad (p ∷ []) rest) in
      (d.sent ≡ p ∷ c.sent)
      × (d.prompt ≡ wait_login)
      × (handle_entry e i (got read) v
          ≡ some (record v { world = login_by e (v.fds i) s t v.world }))
login-over_wire e s t c junk pad rest i v f g h r o =
    let p = login_request e (line_array e s) (password_array e t) in
    let read = read_package junk (package_size e) (written e pad (p ∷ []) rest) in
    let typed = login-typed e s t c (v.fds i) v.world f g h r o in
    let type : p.type ≡ EType.loginn = unfold login_request set_up package_of set_type in refl in
    let fields = typed_fields e s t f g in
    let same : Agrees e read p =
      read_package-written e junk pad rest p [] (rw type (unfold code in refl)) in
    let logs = Agrees-login e read p same in
    (
      typed.0,
      typed.1,
      handle_entry-login e i read v s t (same.type ∙ type) (logs.0 ∙ fields.0) (logs.1 ∙ fields.1),
    )
