-- ===== src/Client/Exchange/Form.antt =====
-- `createNewUser` of the client, step by step.
use chat_service_socket_cpp.Common.{
  ◌≡◌, ◌<◌, false, arith, some, [], ◌∷◌, List, Text, ap, subst, sym, ◌∙◌, length, Option,
}
use chat_service_socket_cpp.Common.Int.{ℤ}
use chat_service_socket_cpp.Env.{Env}
use chat_service_socket_cpp.Memory.{Memory}
use chat_service_socket_cpp.Package.{EType, Package}
use chat_service_socket_cpp.Client.Package.{package_of}
use chat_service_socket_cpp.Client.Login.{line_array, password_array}
use chat_service_socket_cpp.Client.State.{
  Phase, Prompt, Client, create_username, create_password, wait_create_roles, create_role,
  wait_created, send_package, send, ask, read_at, wait, say, say_line, signal,
}
use chat_service_socket_cpp.Client.Forms.Users.{
  is_ignore, enter_create_username, enter_create_password, enter_create_role, create_request,
  show_all_roles,
}
use chat_service_socket_cpp.Client.Receiver.{receive, receiver_handler, show_mess}
use chat_service_socket_cpp.Client.Main.{
  Event, run, step, enter_line, enter_number, go_on, wake, line, number, proceed, received,
}
use chat_service_socket_cpp.Client.Exchange.Login.{step-line}

-- A client with a connection, at the prompt `q`, that has sent `ps`.
pub record At (q : Prompt) (h : Phase) (ps : List Package) (c : Client) : Type 0 where
  pub prompt : c.prompt ≡ q
  pub phase : c.phase ≡ h
  pub online : c.flag_check ≡ false
  pub sent : c.sent ≡ ps

-- A number at a prompt.
step-number :
    (e : Env) (n : Option ℤ) (q : Prompt) (c : Client)
    → c.prompt ≡ q
    → c.phase ≡ Phase.reading
    → step e (number n) c ≡ enter_number e q n c
unfolding step
step-number e n q c p r =
    let at_q : enter_number e c.prompt n c ≡ enter_number e q n c =
      ap (λ (x : Prompt). enter_number e x n c) p in
    ground (arith, r, at_q)

At-line :
    (e : Env) (s : Text) (q p : Prompt) (h : Phase) (ps qs : List Package) (c : Client)
    → At q Phase.reading ps c
    → At p h qs (enter_line e q s c)
    → At p h qs (step e (line s) c)
At-line e s q p h ps qs c a r = subst (At p h qs) (sym (step-line e s q c a.prompt a.phase)) r

At-number :
    (e : Env) (n : Option ℤ) (q p : Prompt) (h : Phase) (ps qs : List Package) (c : Client)
    → At q Phase.reading ps c
    → At p h qs (enter_number e q n c)
    → At p h qs (step e (number n) c)
At-number e n q p h ps qs c a r = subst (At p h qs) (sym (step-number e n q c a.prompt a.phase)) r

-- The main thread comes to its wait.
At-before_wait :
    (e : Env) (q : Prompt) (ps : List Package) (c : Client)
    → At q Phase.before_wait ps c
    → At q Phase.waiting ps (step e proceed c)
unfolding step go_on
At-before_wait e q ps c a = ground (arith, a)

received-show_roles :
    (e : Env) (p : Package) (c : Client)
    → p.type ≡ EType.show_roles
    → c.flag_check ≡ false
    → step e (received p) c ≡ signal (show_mess e [] p c)
unfolding step receiver_handler receive
received-show_roles e p c t o =
    let handled : receive e p.type p c ≡ signal (show_mess e [] p c) =
      ap (λ (x : EType). receive e x p c) t in
    ground (arith, o, handled)

-- The list of roles wakes it.
At-received :
    (e : Env) (q : Prompt) (ps : List Package) (p : Package) (c : Client)
    → p.type ≡ EType.show_roles
    → At q Phase.waiting ps c
    → At q Phase.signalled ps (step e (received p) c)
At-received e q ps p c t a =
    subst (At q Phase.signalled ps) (sym (received-show_roles e p c t a.online))
      (unfold signal in unfold show_mess in unfold say_line in unfold say in ground (arith, a))

At-signalled :
    (e : Env) (q p : Prompt) (h : Phase) (ps qs : List Package) (c : Client)
    → At q Phase.signalled ps c
    → At p h qs (wake e q c)
    → At p h qs (step e proceed c)
unfolding step go_on
At-signalled e q p h ps qs c a r =
    let on : step e proceed c ≡ wake e q c =
      ap (λ (x : Phase). go_on e x c) a.phase ∙ ap (λ (x : Prompt). wake e x c) a.prompt in
    subst (At p h qs) (sym on) r

enter_create_username-At :
    (e : Env) (s : Text) (ps : List Package) (c : Client)
    → length s < e.size_u
    → is_ignore s ≡ false
    → At create_username Phase.reading ps c
    → At (create_password (line_array e s)) Phase.reading ps (enter_create_username e s c)
unfolding enter_create_username ask read_at say
enter_create_username-At e s ps c f g a = ground (arith, f, g, a)

enter_create_password-At :
    (e : Env) (m : Memory) (t : Text) (ps : List Package) (c : Client)
    → length t < e.size_p
    → is_ignore t ≡ false
    → At (create_password m) Phase.reading ps c
    → At
        (wait_create_roles m (password_array e t))
        Phase.before_wait
        (package_of e EType.get_roles ∷ ps)
        (enter_create_password e m t c)
unfolding enter_create_password show_all_roles send_package send wait
enter_create_password-At e m t ps c f g a = ground (arith, f, g, a)

enter_create_role-At :
    (e : Env) (m k : Memory) (r : ℤ) (ps : List Package) (c : Client)
    → At (create_role m k) Phase.reading ps c
    → At wait_created Phase.before_wait
        (create_request e m k r ∷ ps)
        (enter_create_role e m k (some r) c)
unfolding enter_create_role send_package send wait
enter_create_role-At e m k r ps c a = ground (arith, a)

-- What an administrator does who creates a user: name and password, the wait for the list of roles
-- `q`, and the role.
abbrev pub form : Text → Text → Package → ℤ → List Event
form s t q r = line s ∷ line t ∷ proceed ∷ received q ∷ proceed ∷ number (some r) ∷ []

pub form-At :
    (e : Env) (s t : Text) (q : Package) (r : ℤ) (c : Client)
    → length s < e.size_u
    → length t < e.size_p
    → is_ignore s ≡ false
    → is_ignore t ≡ false
    → q.type ≡ EType.show_roles
    → At create_username Phase.reading c.sent c
    → At wait_created Phase.before_wait
        (create_request e (line_array e s) (password_array e t) r
          ∷ package_of e EType.get_roles
          ∷ c.sent)
        (run e (form s t q r) c)
unfolding run
form-At e s t q r c f g i j k a =
    let m = line_array e s in
    let n = password_array e t in
    let ps = package_of e EType.get_roles ∷ c.sent in
    let c₁ = step e (line s) c in
    let c₂ = step e (line t) c₁ in
    let c₃ = step e proceed c₂ in
    let c₄ = step e (received q) c₃ in
    let c₅ = step e proceed c₄ in
    let a₁ =
      At-line e s create_username (create_password m) Phase.reading c.sent c.sent c a
        (unfold enter_line in enter_create_username-At e s c.sent c f i a) in
    let a₂ =
      At-line e t (create_password m) (wait_create_roles m n) Phase.before_wait c.sent ps c₁ a₁
        (unfold enter_line in enter_create_password-At e m t c.sent c₁ g j a₁) in
    let a₃ = At-before_wait e (wait_create_roles m n) ps c₂ a₂ in
    let a₄ = At-received e (wait_create_roles m n) ps q c₃ k a₃ in
    let a₅ =
      At-signalled e (wait_create_roles m n) (create_role m n) Phase.reading ps ps c₄ a₄
        (unfold wake in unfold ask in unfold read_at in unfold say in ground (arith, a₄)) in
    At-number e (some r) (create_role m n) wait_created Phase.before_wait ps
      (create_request e m n r ∷ ps) c₅ a₅
      (unfold enter_number in enter_create_role-At e m n r ps c₅ a₅)
