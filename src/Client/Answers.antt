-- ===== src/Client/Answers.antt =====
-- The waits of the main thread: which packages end them.
pub mod Requests
pub mod Early
use chat_service_socket_cpp.Common.{
  ◌≡◌, refl, Bool, true, false, arith, List, [], ◌∷◌, txt, text_eq, if◌then◌else◌,
}
use chat_service_socket_cpp.Env.{Env}
use chat_service_socket_cpp.Package.{EType, Package, u_name, p_word, login_state, get_role}
use chat_service_socket_cpp.Client.Package.{package_of}
use chat_service_socket_cpp.Client.User.{set_username, set_password, set_state, set_roles}
use chat_service_socket_cpp.Client.State.{
  Prompt, Phase, Client, ask, read_at, say, say_line, signal, input_line,
}
use chat_service_socket_cpp.Client.Loop.{open_chat, command_loop, top, handlers, after_with}
use chat_service_socket_cpp.Client.Forms.Users.{next_user, ask_modify_role}
use chat_service_socket_cpp.Client.Forms.Rooms.{next_room}
use chat_service_socket_cpp.Client.Menu.{show_menu}
use chat_service_socket_cpp.Client.Receiver.{
  receive, receiver_handler, log_in, with_party, chat_text, show_mess,
}
use chat_service_socket_cpp.Client.Main.{wake, go_on, step, run, received, proceed}
use chat_service_socket_cpp.Client.Invariant.{is_wait}
use chat_service_socket_cpp.Client.Invariant.Receiver.{
  Shows-show_menu, Shows-input_line, Got-receive,
}

-- The types for which `receiverHandler` signals.
abbrev pub wakes : EType → Bool
wakes EType.join_success = true
wakes EType.join_fail = true
wakes EType.all_room = true
wakes EType.send_mess = true
wakes EType.login_success = true
wakes EType.login_fail = true
wakes EType.send_fail = true
wakes EType.create_success = true
wakes EType.create_fail = true
wakes EType.show_users = true
wakes EType.delete_success = true
wakes EType.delete_fail = true
wakes EType.with_success = true
wakes EType.with_fail = true
wakes EType.success_terminate = true
wakes EType.show_roles = true
wakes EType.modify_success = true
wakes EType.modify_fail = true
wakes _ = false

-- The main thread is woken if it waits.
abbrev Signals : Client → Client → Type 0
Signals c d = c.phase ≡ Phase.waiting → d.phase ≡ Phase.signalled

Signals-signal : (c d : Client) → d.phase ≡ c.phase → Signals c (signal d)
unfolding signal
Signals-signal c d h = λ k. ground (arith, h, k)

phase-log_in : (e : Env) (p : Package) (c : Client) → (log_in e p c).phase ≡ c.phase
unfolding log_in set_username set_password set_state set_roles
phase-log_in e p c =
    let user = set_roles e (get_role e p) (
      set_state e (login_state e p)
        (set_password e (p_word e p) (set_username e (u_name e p) c.user))) in
    ground (arith, Shows-show_menu e (record c { user = user }))

phase-with_party : (e : Env) (p : Package) (c : Client) → (with_party e p c).phase ≡ c.phase
unfolding with_party say_line say
phase-with_party e p c = ground arith

Signals-receive :
    (e : Env) (t : EType) (p : Package) (c : Client) → wakes t ≡ true → Signals c (receive e t p c)
unfolding receive show_mess say_line say
Signals-receive e EType.join_success p c h =
    Signals-signal c (record (show_mess e [] p c) { flag_w = false; flag_j = true }) refl
Signals-receive e EType.join_fail p c h = Signals-signal c (show_mess e [] p c) refl
Signals-receive e EType.all_room p c h = Signals-signal c (show_mess e [] p c) refl
Signals-receive e EType.send_mess p c h =
    let told = say_line (chat_text e c.user p) c in
    Signals-signal c (input_line told) (ground (arith, Shows-input_line told))
Signals-receive e EType.login_success p c h = Signals-signal c (log_in e p c) (phase-log_in e p c)
Signals-receive e EType.login_fail p c h = Signals-signal c (show_mess e (txt "\t\t") p c) refl
Signals-receive e EType.send_fail p c h =
    let told = show_mess e (txt "\r                             ") p c in
    Signals-signal c (input_line told) (ground (arith, Shows-input_line told))
Signals-receive e EType.create_success p c h = Signals-signal c (show_mess e (txt "\t\t") p c) refl
Signals-receive e EType.create_fail p c h = Signals-signal c (show_mess e (txt "\t\t") p c) refl
Signals-receive e EType.show_users p c h = Signals-signal c (show_mess e (txt "\t\t") p c) refl
Signals-receive e EType.delete_success p c h = Signals-signal c (show_mess e (txt "\t\t") p c) refl
Signals-receive e EType.delete_fail p c h = Signals-signal c (show_mess e (txt "\t\t") p c) refl
Signals-receive e EType.with_success p c h =
    Signals-signal c (with_party e p c) (phase-with_party e p c)
Signals-receive e EType.with_fail p c h = Signals-signal c (show_mess e (txt "\t\t") p c) refl
Signals-receive e EType.success_terminate p c h =
    let ended : Client = record (show_menu e c) { flag_w = false; flag_j = false } in
    Signals-signal c (input_line ended)
      (ground (arith, Shows-show_menu e c, Shows-input_line ended))
Signals-receive e EType.show_roles p c h = Signals-signal c (show_mess e [] p c) refl
Signals-receive e EType.modify_success p c h = Signals-signal c (show_mess e (txt "\t\t") p c) refl
Signals-receive e EType.modify_fail p c h = Signals-signal c (show_mess e (txt "\t\t") p c) refl
Signals-receive e t p c h = absurd (ground (arith, h))

phase-open_chat : (c : Client) → (open_chat c).phase ≡ Phase.reading
unfolding open_chat read_at
phase-open_chat c = ground arith

phase-command_loop : (c : Client) → (command_loop c).phase ≡ Phase.reading
unfolding command_loop read_at
phase-command_loop c = ground (arith, phase-open_chat c)

phase-top : (e : Env) (c : Client) → (top e c).phase ≡ Phase.reading
unfolding top ask read_at
phase-top e c =
    ground
      (arith, phase-open_chat c, phase-command_loop (record c { pkg = package_of e EType.nowork }))

-- Behind each wait the main thread reads again.
phase-wake :
    (e : Env) (p : Prompt) (c : Client) → is_wait p ≡ true → (wake e p c).phase ≡ Phase.reading
unfolding wake handlers after_with ask_modify_role next_user next_room ask read_at
phase-wake e Prompt.wait_login c h = phase-top e c
phase-wake e Prompt.wait_command c h = ground (arith, phase-open_chat c, phase-top e c)
phase-wake e Prompt.wait_list c h = phase-command_loop c
phase-wake e Prompt.wait_back_with c h = ground (arith, phase-top e c)
phase-wake e Prompt.wait_back_room c h = phase-top e c
phase-wake e (Prompt.wait_modify_roles name password) c h = refl
phase-wake e Prompt.wait_modified c h = phase-command_loop c
phase-wake e (Prompt.wait_create_roles name password) c h = refl
phase-wake e Prompt.wait_created c h = refl
phase-wake e Prompt.wait_deleted c h = phase-command_loop c
phase-wake e Prompt.wait_room_created c h = refl
phase-wake e Prompt.wait_room_modified c h = phase-command_loop c
phase-wake e Prompt.wait_room_deleted c h = phase-command_loop c
phase-wake e p c h = absurd (ground (arith, h))

-- The main thread waits for an answer.
pub record Waits (c : Client) : Type 0 where
  pub waiting : c.phase ≡ Phase.waiting
  pub asked : is_wait c.prompt ≡ true
  pub online : c.flag_check ≡ false

go_on-signalled :
    (e : Env) (f : Phase) (c : Client)
    → f ≡ Phase.signalled
    → is_wait c.prompt ≡ true
    → (go_on e f c).phase ≡ Phase.reading
unfolding go_on
go_on-signalled e Phase.signalled c h w = phase-wake e c.prompt c w
go_on-signalled e Phase.before_test c h w = absurd (ground (arith, h))
go_on-signalled e Phase.before_wait c h w = absurd (ground (arith, h))
go_on-signalled e Phase.reading c h w = absurd (ground (arith, h))
go_on-signalled e Phase.waiting c h w = absurd (ground (arith, h))

-- A package of a type that wakes ends the wait.
pub run-wakes :
    (e : Env) (p : Package) (c : Client)
    → Waits c
    → wakes p.type ≡ true
    → (run e (received p ∷ proceed ∷ []) c).phase ≡ Phase.reading
unfolding run step receiver_handler
run-wakes e p c v h =
    let d = receive e p.type p c in
    ground (
      arith,
      v.online,
      go_on-signalled e d.phase d (Signals-receive e p.type p c h v.waiting)
          (ground (arith, v.asked, Got-receive e p.type p c)),
    )

phase-go_on :
    (e : Env) (f : Phase) (c : Client)
    → f ≡ c.phase
    → (c.phase ≡ Phase.waiting → (go_on e f c).phase ≡ Phase.waiting)
      × (c.phase ≡ Phase.before_wait → (go_on e f c).phase ≡ Phase.waiting)
unfolding go_on
phase-go_on e Phase.reading c h = (λ k. ground (arith, h, k), λ k. ground (arith, h, k))
phase-go_on e Phase.before_test c h =
    (λ k. absurd (ground (arith, h, k)), λ k. absurd (ground (arith, h, k)))
phase-go_on e Phase.before_wait c h = (λ k. refl, λ k. refl)
phase-go_on e Phase.waiting c h = (λ k. ground (arith, h, k), λ k. ground (arith, h, k))
phase-go_on e Phase.signalled c h = (λ k. ground (arith, h, k), λ k. ground (arith, h, k))

phase-receive-fail_terminate :
    (e : Env) (t : EType) (p : Package) (c : Client)
    → t ≡ EType.fail_terminate
    → (receive e t p c).phase ≡ c.phase
unfolding receive say_line say
phase-receive-fail_terminate e EType.fail_terminate p c h = refl
phase-receive-fail_terminate e EType.checkparty p c h = absurd (ground (arith, h))
phase-receive-fail_terminate e t p c h = ground (arith, h)

missed :
    (e : Env) (d : Client)
    → d.phase ≡ Phase.before_wait
    → (step e proceed (step e proceed d)).phase ≡ Phase.waiting
unfolding step
missed e d h =
    let once = go_on e d.phase d in
    let waits = (phase-go_on e d.phase d refl).1 h in (phase-go_on e once.phase once refl).0 waits

-- `failTerminate` does not end a wait.
pub run-fail_terminate :
    (e : Env) (p : Package) (c : Client)
    → Waits c
    → p.type ≡ EType.fail_terminate
    → (run e (received p ∷ proceed ∷ []) c).phase ≡ Phase.waiting
unfolding run step receiver_handler
run-fail_terminate e p c v h =
    let d = receive e p.type p c in
    ground (
      arith,
      v.online,
      v.waiting,
      phase-receive-fail_terminate e p.type p c h,
      (phase-go_on e d.phase d refl).0,
    )

-- An answer that comes before the client waits for it does not wake it: it waits, and goes on waiting.
pub run-missed :
    (e : Env) (p : Package) (c : Client)
    → c.phase ≡ Phase.before_wait
    → (run e (received p ∷ proceed ∷ proceed ∷ []) c).phase ≡ Phase.waiting
unfolding run step
run-missed e p c h =
    missed e (if c.flag_check then c else receiver_handler e p c)
      (unfold receiver_handler in ground (arith, h, Got-receive e p.type p c))
