-- ===== src/Client/Exchange/Session.antt =====
-- `case loginSuccess` of the client, for what `Login` of the server sends.
use chat_service_socket_cpp.Common.{ℕ, ◌+◌, ◌<◌, ◌≡◌, refl, true, arith, Text, length, txt, ap, ◌∙◌}
use chat_service_socket_cpp.Common.Int.{ℤ}
use chat_service_socket_cpp.Env.{Env}
use chat_service_socket_cpp.Memory.{
  Memory, read_word, strcpy, Stored, IsInt, write_word, word_of_int, int_of_word,
}
use chat_service_socket_cpp.Memory.Laws.{Stored-strcpy, Stored-strcpy_after, str_to_char-eq}
use chat_service_socket_cpp.Memory.Words.{
  Stored-write_word_after, read_word-write_word, word_of_int-Fits, int_of_word-word_of_int,
}
use chat_service_socket_cpp.Package
use chat_service_socket_cpp.Package.{
  EType, Package, u_name, p_word, login_state, get_role, p_word_at, state_at, role_at, size_message,
  field, set_type, set_mess, fresh,
}
use chat_service_socket_cpp.Package.Fields.{FitsIn, sizes, field-Stored, login_fields}
use chat_service_socket_cpp.User as Server
use chat_service_socket_cpp.User.{user_key}
use chat_service_socket_cpp.Client.User.{
  User, set_username, set_password, set_state, set_roles, get_username, get_password, get_state,
  get_roles,
}
use chat_service_socket_cpp.Client.Invariant.Receiver.{Shows-show_menu}
use chat_service_socket_cpp.Client.Receiver.{receiver_handler, receive, log_in}
use chat_service_socket_cpp.Server.Login.{login_package}
use chat_service_socket_cpp.Client.State.{signal, Client}

-- The object of the user, after the setters of `case loginSuccess` with texts that fit their arrays.
set_roles_fields :
    (e : Env) (u w s : Text) (r : ℤ) (x : User)
    → FitsIn e.size_u u
    → FitsIn e.size_p w
    → FitsIn e.size_u s
    → IsInt r
    → let y = set_roles e r (set_state e s (set_password e w (set_username e u x))) in
      (get_username e y ≡ u) × (get_password e y ≡ w) × (get_state e y ≡ s) × (get_roles e y ≡ r)
unfolding set_roles set_state set_password set_username get_username get_password get_state
    get_roles p_word_at state_at
set_roles_fields e u w s r x fu fw fs i =
    let su = e.size_u in
    let at_s = e.size_u + e.size_p in
    let m₀ : Memory = strcpy 0 u x.fields in
    let m₁ : Memory = strcpy su w m₀ in
    let m₂ : Memory = strcpy at_s s m₁ in
    let m₃ : Memory = write_word 4 (role_at e) (word_of_int r) m₂ in
    let stored_u : Stored 0 u m₂ = Stored-strcpy_after at_s s 0 u m₁ (omega (arith, fu.short)) (
      Stored-strcpy_after su w 0 u m₀ (omega (arith, fu.short))
        (Stored-strcpy 0 u x.fields fu.no_nul)) in
    let stored_w : Stored su w m₂ =
      Stored-strcpy_after at_s s su w m₁ (omega (arith, fw.short))
        (Stored-strcpy su w m₀ fw.no_nul) in
    let after = λ (o : ℕ) (t : Text) (h : o + length t < role_at e) (k : Stored o t m₂).
      field-Stored e o t m₃ (Stored-write_word_after 4 (role_at e) (word_of_int r) o t m₂ h k)
        (omega (arith, sizes e)) in
    (
      after 0 u (omega (arith, sizes e, fu.short)) stored_u,
      after su w (omega (arith, sizes e, fw.short)) stored_w,
      after at_s s (omega (arith, sizes e, fs.short)) (Stored-strcpy at_s s m₁ fs.no_nul),
      ap int_of_word (read_word-write_word 4 (role_at e) (word_of_int r) m₂ (word_of_int-Fits r))
          ∙ int_of_word-word_of_int r i,
    )

abbrev received_user : Env → Package → Client → User
received_user e p c = set_roles e (get_role e p) (
    set_state e (login_state e p)
      (set_password e (p_word e p) (set_username e (u_name e p) c.user)))

user-log_in :
    (e : Env) (p : Package) (c : Client)
    → ((log_in e p c).user.flag_l ≡ true)
      × ((log_in e p c).user.fields ≡ (received_user e p c).fields)
unfolding log_in
user-log_in e p c = ground (arith, Shows-show_menu e (record c { user = received_user e p c }))

user-signal : (c : Client) → (signal c).user ≡ c.user
unfolding signal
user-signal c = ground arith

-- The getters read the object's fields.
getters :
    (e : Env) (x y : User)
    → x.fields ≡ y.fields
    → (get_username e x ≡ get_username e y)
      × (get_password e x ≡ get_password e y)
      × (get_state e x ≡ get_state e y)
      × (get_roles e x ≡ get_roles e y)
unfolding get_username get_password get_state get_roles
getters e x y h = (
  ap (λ (m : Memory). field e 0 m) h,
  ap (λ (m : Memory). field e (p_word_at e) m) h,
  ap (λ (m : Memory). field e (state_at e) m) h,
  ap (λ (m : Memory). int_of_word (read_word 4 (role_at e) m)) h,
)

-- What the client knows of its user.
abbrev pub IsUser : Env → User → Text → Text → Text → ℤ → Type 0
IsUser e x u w s r =
    (get_username e x ≡ u) × (get_password e x ≡ w) × (get_state e x ≡ s) × (get_roles e x ≡ r)

received_user-IsUser :
    (e : Env) (p : Package) (c : Client) (u w s : Text) (r : ℤ)
    → (u_name e p ≡ u) × (p_word e p ≡ w) × (login_state e p ≡ s) × (get_role e p ≡ r)
    → IsUser e (set_roles e r (set_state e s (set_password e w (set_username e u c.user)))) u w s r
    → IsUser e (signal (log_in e p c)).user u w s r
received_user-IsUser e p c u w s r h k =
    let same : (signal (log_in e p c)).user.fields ≡ (received_user e p c).fields =
      ap (λ (x : User). x.fields) (user-signal (log_in e p c)) ∙ (user-log_in e p c).1 in
    let named : received_user e p c
        ≡ set_roles e r (set_state e s (set_password e w (set_username e u c.user))) =
      λ i.
        set_roles e (h.3 i)
          (set_state e (h.2 i) (set_password e (h.1 i) (set_username e (h.0 i) c.user))) in
    let g =
      getters e (signal (log_in e p c)).user
        (set_roles e r (set_state e s (set_password e w (set_username e u c.user))))
        (same ∙ ap (λ (x : User). x.fields) named) in
    ground (arith, g, k)

login_package_fields :
    (e : Env) (u : Server.User)
    → FitsIn e.size_u u.username
    → FitsIn e.size_p u.password
    → FitsIn e.size_u u.state.name
    → IsInt u.role
    → let p = login_package e u in
      (u_name e p ≡ u.username)
      × (p_word e p ≡ u.password)
      × (login_state e p ≡ u.state.name)
      × (get_role e p ≡ u.role)
unfolding login_package
login_package_fields e u fu fw fs i =
    let before =
      set_mess e (txt "You have succcessfully logged in!") (fresh e EType.login_success) in
    rw
      (
        str_to_char-eq u.username fu.no_nul,
        str_to_char-eq u.password fw.no_nul,
        str_to_char-eq u.state.name fs.no_nul,
      )
      (login_fields e u.username u.password u.state.name u.role before fu fw fs i)

receiver_handler-login_package :
    (e : Env) (u : Server.User) (c : Client)
    → receiver_handler e (login_package e u) c ≡ signal (log_in e (login_package e u) c)
unfolding receiver_handler receive login_package Package.set_state Package.set_up Package.set_role
    set_mess fresh
receiver_handler-login_package e u c = refl

-- The package with which the server lets a user in gives the client this user: if the server's data fit
-- their arrays and the role is an `int`, the client that receives it is logged in, with the name, the
-- password, the state and the role that the server has.
pub login_package-log_in :
    (e : Env) (u : Server.User) (c : Client)
    → FitsIn e.size_u u.username
    → FitsIn e.size_p u.password
    → FitsIn e.size_u u.state.name
    → IsInt u.role
    → let d = receiver_handler e (login_package e u) c in
      (d.user.flag_l ≡ true)
      × (get_username e d.user ≡ u.username)
      × (get_password e d.user ≡ u.password)
      × (get_state e d.user ≡ u.state.name)
      × (get_roles e d.user ≡ u.role)
login_package-log_in e u c fu fw fs i =
    let p = login_package e u in
    let fields = login_package_fields e u fu fw fs i in
    let kept =
      received_user-IsUser e p c u.username u.password u.state.name u.role fields
        (set_roles_fields e u.username u.password u.state.name u.role c.user fu fw fs i) in
    rw (receiver_handler-login_package e u c) (
      ap (λ (x : User). x.flag_l) (user-signal (log_in e p c)) ∙ (user-log_in e p c).0,
      kept.0,
      kept.1,
      kept.2,
      kept.3,
    )
