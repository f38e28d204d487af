-- ===== src/Client/Roles/Runs.antt =====
-- What a user without the role of an administrator sends in a run of the client.
use chat_service_socket_cpp.Common.{◌≡◌, refl, false, arith, List, [], ◌∷◌}
use chat_service_socket_cpp.Common.Int.{int_eq, pos}
use chat_service_socket_cpp.Env.{Env}
use chat_service_socket_cpp.Package.{EType, set_type}
use chat_service_socket_cpp.Client.Package.{package_of, set_up}
use chat_service_socket_cpp.Client.User.{get_roles, get_username, get_password}
use chat_service_socket_cpp.Client.State.{Phase, Client, send_package, ask, read_at, say, say_line}
use chat_service_socket_cpp.Client.Loop.{top}
use chat_service_socket_cpp.Client.Receiver.{receiver_handler, lose_server, reconnect}
use chat_service_socket_cpp.Client.Main.{
  Event, go_on, step, run, start, new_client, line, number, proceed, received, failed, closed,
  reconnected,
}
use chat_service_socket_cpp.Client.Invariant.Receiver.{Got-receive}
use chat_service_socket_cpp.Client.Roles.{
  Plain-test_flags, is_form, Ordinary, Plain, Ordinary-send_package, Plain-enter_line,
  Plain-enter_number, Plain-wake,
}

-- The user of the client does not have role 1, now and after each of the events.
abbrev pub NeverAdmin : Env → List Event → Client → Type 0
NeverAdmin e [] c = int_eq (get_roles e c.user) (pos 1) ≡ false
NeverAdmin e (ev ∷ evs) c =
    (int_eq (get_roles e c.user) (pos 1) ≡ false) × NeverAdmin e evs (step e ev c)

NeverAdmin-now :
    (e : Env) (evs : List Event) (c : Client)
    → NeverAdmin e evs c
    → int_eq (get_roles e c.user) (pos 1) ≡ false
NeverAdmin-now e [] c h = h
NeverAdmin-now e (ev ∷ evs) c h = h.0

go_on-Plain : (e : Env) (f : Phase) (c : Client) → is_form c.prompt ≡ false → Plain c (go_on e f c)
unfolding go_on
go_on-Plain e Phase.signalled c k = Plain-wake e c.prompt c k k
go_on-Plain e Phase.before_test c k = Plain-test_flags c.prompt c k
go_on-Plain e Phase.before_wait c k = ground (arith, k)
go_on-Plain e Phase.reading c k = ground (arith, k)
go_on-Plain e Phase.waiting c k = ground (arith, k)

reconnect-Plain : (e : Env) (c : Client) → is_form c.prompt ≡ false → Plain c (reconnect e c)
unfolding reconnect package_of set_up set_type send_package say_line say
reconnect-Plain e c k =
    let found : Client = record c { flag_check = false } in
    let p = set_up e (get_username e c.user) (get_password e c.user) (package_of e EType.loginn) in
    ground (arith, k, Ordinary-send_package p found refl)

step-Plain :
    (e : Env) (ev : Event) (c : Client)
    → is_form c.prompt ≡ false
    → int_eq (get_roles e c.user) (pos 1) ≡ false
    → Plain c (step e ev c)
unfolding step lose_server receiver_handler say_line say
step-Plain e (line s) c k h = ground (arith, k, Plain-enter_line e c.prompt s c k k h)
step-Plain e (number n) c k h = ground (arith, k, Plain-enter_number e c.prompt n c k k)
step-Plain e proceed c k h = go_on-Plain e c.phase c k
step-Plain e (received p) c k h = ground (arith, k, Got-receive e p.type p c)
step-Plain e failed c k h = ground (arith, k)
step-Plain e closed c k h = ground (arith, k)
step-Plain e reconnected c k h = ground (arith, k, reconnect-Plain e c k)

run-Plain :
    (e : Env) (evs : List Event) (c : Client)
    → is_form c.prompt ≡ false
    → NeverAdmin e evs c
    → Plain c (run e evs c)
unfolding run
run-Plain e [] c k h = ground (arith, k)
run-Plain e (ev ∷ evs) c k h =
    let s = step-Plain e ev c k h.0 in ground (arith, s, run-Plain e evs (step e ev c) s.0 h.1)

-- A client whose user never has role 1 sends no package that creates, modifies or deletes a user or a
-- room, and opens none of the forms for these, whatever is typed and received.
pub run-Ordinary :
    (e : Env) (evs : List Event)
    → NeverAdmin e evs (start e)
    → Ordinary (run e evs (start e)).sent × (is_form (run e evs (start e)).prompt ≡ false)
unfolding start new_client top ask read_at say_line say
run-Ordinary e evs h = let r = run-Plain e evs (start e) refl h in (r.1 tt, r.0)
