-- ===== src/Client/Exchange/Login.antt =====
-- `loginHandler` of the client and `Login` of the server.
use chat_service_socket_cpp.Common.{
  if◌then◌else◌, ℕ, zero, suc, ◌+◌, ◌<◌, ◌≡◌, refl, false, arith, none, some, [], ◌∷◌, Text,
  text_eq, length, txt, ap, ◌∙◌,
}
use chat_service_socket_cpp.Common.Int.{ℤ, is_pos}
use chat_service_socket_cpp.Env.{Env}
use chat_service_socket_cpp.Memory.{Memory, poke, strcpy, NoNul, Stored, str_to_char}
use chat_service_socket_cpp.Memory.Laws.{
  cstr-Stored, Stored-strcpy, Stored-strcpy_after, Stored-poke_before,
}
use chat_service_socket_cpp.Package.{
  EType, Package, u_name, p_word, p_word_at, size_message, set_type,
}
use chat_service_socket_cpp.Package.Fields.{FitsIn, sizes, field-Stored}
use chat_service_socket_cpp.User.{user_key}
use chat_service_socket_cpp.StdMap.{find}
use chat_service_socket_cpp.Server.State.{World}
use chat_service_socket_cpp.Server.State.{reply}
use chat_service_socket_cpp.Server.Login.{login, login_accepted}
use chat_service_socket_cpp.Server.Dispatch.{dispatch, analyze_package}
use chat_service_socket_cpp.Package.{login_fail}
use chat_service_socket_cpp.Client.Package.{set_up, package_of}
use chat_service_socket_cpp.Client.Text.{copy_line}
use chat_service_socket_cpp.Client.State.{
  Phase, Prompt, Client, enter_username, enter_password, wait_login, send_package, send, ask,
  read_at, wait, say,
}
use chat_service_socket_cpp.Client.Login.{
  line_array, password_array, array_text, login_request, login_username, login_password,
}
use chat_service_socket_cpp.Client.Main.{run, step, enter_line, line}

Stored-copy_line :
    (n o : ℕ) (s : Text) (m : Memory) → NoNul s → length s < n → Stored o s (copy_line n o s m)
unfolding copy_line poke
Stored-copy_line zero o s m h k = elim k [ ]
Stored-copy_line (suc n) o [] m h k = ground arith
Stored-copy_line (suc n) o (c ∷ s) m h k = ground (
  arith,
  Stored-poke_before o c (o + 1) s (copy_line n (o + 1) s m) (omega arith)
      (Stored-copy_line n (o + 1) s m h.1 (omega arith)),
)

pub array_text-copy_line :
    (e : Env) (n : ℕ) (s : Text)
    → FitsIn n s
    → n < size_message e
    → array_text e (copy_line n 0 s e.junk_line) ≡ s
unfolding array_text
array_text-copy_line e n s f h =
    cstr-Stored (size_message e) 0 s (copy_line n 0 s e.junk_line)
      (Stored-copy_line n 0 s e.junk_line f.no_nul f.short) (omega (arith, f.short))

-- After `setUP`, the package gives name and password.
pub set_up_fields :
    (e : Env) (u w : Text) (p : Package)
    → FitsIn e.size_u u
    → FitsIn e.size_p w
    → (u_name e (set_up e u w p) ≡ u) × (p_word e (set_up e u w p) ≡ w)
unfolding u_name p_word set_up p_word_at
set_up_fields e u w p f g =
    let m₀ : Memory = strcpy 0 u p.message in
    let m₁ : Memory = strcpy e.size_u w m₀ in
    (
      field-Stored e 0 u m₁
          (Stored-strcpy_after e.size_u w 0 u m₀ (omega (arith, f.short))
            (Stored-strcpy 0 u p.message f.no_nul))
          (omega (arith, sizes e, f.short)),
      field-Stored e e.size_u w m₁ (Stored-strcpy e.size_u w m₀ g.no_nul)
          (omega (arith, sizes e, g.short)),
    )

abbrev pub typed_request : Env → Text → Text → Package
typed_request e s t = login_request e (line_array e s) (password_array e t)

pub typed_fields :
    (e : Env) (s t : Text)
    → FitsIn e.size_u s
    → FitsIn e.size_p t
    → (u_name e (typed_request e s t) ≡ s) × (p_word e (typed_request e s t) ≡ t)
unfolding login_request line_array password_array
typed_fields e s t f g =
    let p = set_up_fields e s t (package_of e EType.loginn) f g in
    let name = array_text-copy_line e e.size_u s f (omega (arith, sizes e)) in
    let password = array_text-copy_line e e.size_p t g (omega (arith, sizes e)) in
    rw (name, password) p

-- A line at a prompt.
pub step-line :
    (e : Env) (s : Text) (q : Prompt) (c : Client)
    → c.prompt ≡ q
    → c.phase ≡ Phase.reading
    → step e (line s) c ≡ enter_line e q s c
unfolding step
step-line e s q c p r =
    let at_q : enter_line e c.prompt s c ≡ enter_line e q s c =
      ap (λ (x : Prompt). enter_line e x s c) p in
    ground (arith, r, at_q)

-- `loginHandler`, for a name and for a password that are not too long.
abbrev asked : Env → Text → Client → Client
asked e s c = ask (enter_password (line_array e s)) (txt "Enter password: ") c

login_username-short :
    (e : Env) (s : Text) (c : Client) → length s < e.size_u → login_username e s c ≡ asked e s c
unfolding login_username
login_username-short e s c h = ground arith

login_password-sent :
    (e : Env) (m : Memory) (t : Text) (c : Client)
    → length t < e.size_p
    → c.flag_check ≡ false
    → ((login_password e m t c).sent ≡ login_request e m (password_array e t) ∷ c.sent)
      × ((login_password e m t c).prompt ≡ wait_login)
unfolding login_password send_package send wait
login_password-sent e m t c h o = ground (arith, o)

login-run :
    (e : Env) (s t : Text) (c : Client)
    → length s < e.size_u
    → c.prompt ≡ enter_username
    → c.phase ≡ Phase.reading
    → run e (line s ∷ line t ∷ []) c ≡ login_password e (line_array e s) t (asked e s c)
unfolding run
login-run e s t c h p r =
    let first : step e (line s) c ≡ asked e s c =
      step-line e s enter_username c p r ∙ (unfold enter_line in login_username-short e s c h) in
    let second : step e (line t) (asked e s c) ≡ login_password e (line_array e s) t (asked e s c) =
      unfold enter_line ask read_at in
      step-line e t (enter_password (line_array e s)) (asked e s c) refl refl in
    ap (λ (d : Client). step e (line t) d) first ∙ second

-- The login of the user `s` with the password `t`.
abbrev pub login_by : Env → ℤ → Text → Text → World → World
login_by e fd s t w = elim (find user_key s w.users) [
  | none ↦ reply e fd login_fail (txt "Username not exist!!") w
  | some (u, v) ↦
      if is_pos v
      then reply e fd login_fail (txt "Sorry your account is being login elsewhere !!") w
      else if text_eq (str_to_char u.password) t
      then login_accepted e fd u w
      else reply e fd login_fail (txt "Wrong pass !!") w
]

pub analyze_package-login :
    (e : Env) (fd : ℤ) (p : Package) (w : World)
    → p.type ≡ EType.loginn
    → analyze_package e fd p w ≡ some (login e fd p w)
unfolding analyze_package dispatch
analyze_package-login e fd p w t =
    let handled : dispatch e fd p.type p w ≡ dispatch e fd EType.loginn p w =
      ap (λ (y : EType). dispatch e fd y p w) t in
    ground (arith, t, handled)

pub login-login_by :
    (e : Env) (fd : ℤ) (p : Package) (w : World) (s t : Text)
    → u_name e p ≡ s
    → p_word e p ≡ t
    → login e fd p w ≡ login_by e fd s t w
unfolding login
login-login_by e fd p w s t h k = ground (arith, h, k)

-- A user who types a name and a password at the start asks for just this login: the client sends one
-- package and will wait. Whoever has the connection, the server answers the package by the name and the
-- password that were typed: it accepts the user of that name, if not online and of that password, and
-- refuses an unknown name, a user who is online and a wrong password, each with its message.
pub login-typed :
    (e : Env) (s t : Text) (c : Client) (fd : ℤ) (w : World)
    → FitsIn e.size_u s
    → FitsIn e.size_p t
    → c.prompt ≡ enter_username
    → c.phase ≡ Phase.reading
    → c.flag_check ≡ false
    → let d = run e (line s ∷ line t ∷ []) c in
      let p = login_request e (line_array e s) (password_array e t) in
      (d.sent ≡ p ∷ c.sent)
      × (d.prompt ≡ wait_login)
      × (analyze_package e fd p w ≡ some (login_by e fd s t w))
unfolding run
login-typed e s t c fd w f g p r o =
    let fields = typed_fields e s t f g in
    let done = login-run e s t c f.short p r in
    let asks = typed_request e s t in
    let sent =
      login_password-sent e (line_array e s) t (asked e s c) g.short
        (unfold ask read_at say in o) in
    (
      ap (λ (d : Client). d.sent) done ∙ (unfold ask read_at say in sent.0),
      ap (λ (d : Client). d.prompt) done ∙ (unfold ask read_at say in sent.1),
      analyze_package-login e fd asks w (unfold login_request set_up package_of set_type in refl)
          ∙ ap some (login-login_by e fd asks w s t fields.0 fields.1),
    )
