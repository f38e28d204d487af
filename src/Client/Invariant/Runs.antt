-- ===== src/Client/Invariant/Runs.antt =====
-- The invariant of the client, over every run.
use chat_service_socket_cpp.Common.{
  ◌≡◌, refl, Bool, true, false, arith, List, [], ◌∷◌, Text, txt, if◌then◌else◌,
}
use chat_service_socket_cpp.Env.{Env}
use chat_service_socket_cpp.Package.{Package, loginn}
use chat_service_socket_cpp.Client.Package.{package_of, set_up}
use chat_service_socket_cpp.Client.User.{
  new_user, get_username, get_password, set_username, set_password, set_state, set_roles,
}
use chat_service_socket_cpp.Client.State.{
  Phase, Client, send_package, ask, read_at, say, say_line, send,
}
use chat_service_socket_cpp.Client.Loop.{top}
use chat_service_socket_cpp.Client.Receiver.{receiver_handler, reconnect}
use chat_service_socket_cpp.Client.Main.{
  Event, enter_line, enter_number, wake, go_on, step, run, start, new_client, is_reading, line,
  number, proceed, received, failed, closed, reconnected,
}
use chat_service_socket_cpp.Client.Invariant.{is_wait, Moved-test_flags}
use chat_service_socket_cpp.Client.Loop.{test_flags}
use chat_service_socket_cpp.Common.{sym}
use chat_service_socket_cpp.Client.Invariant.Receiver.{Got-receive}
use chat_service_socket_cpp.Client.Invariant.Steps.{
  IsClient, IsClient-Moved, Moved-enter_line, Moved-enter_number, Moved-wake, Logs-enter_line,
  Logs-enter_number, Logs-wake, Logs-test_flags,
}

go_on-IsClient :
    (e : Env) (f : Phase) (c : Client) → f ≡ c.phase → IsClient c → IsClient (go_on e f c)
unfolding go_on
go_on-IsClient e Phase.before_test c h v =
    IsClient-Moved c (test_flags c.prompt c) v (Moved-test_flags c.prompt c (sym h) refl v.placed)
      (λ l. Logs-test_flags c.prompt c (v.login l) (v.login l))
go_on-IsClient e Phase.before_wait c h v = record {
  one_chat = v.one_chat;
  placed = ground (arith, h, v.placed);
  login = v.login;
  only_logins = v.only_logins;
}
go_on-IsClient e Phase.signalled c h v =
    let w : is_wait c.prompt ≡ true = ground (arith, h, v.placed) in
    IsClient-Moved c (wake e c.prompt c) v (Moved-wake e c.prompt c w)
      (λ l. Logs-wake e c.prompt c (v.login l) w l)
go_on-IsClient e Phase.reading c h v = v
go_on-IsClient e Phase.waiting c h v = v

receive-IsClient :
    (e : Env) (p : Package) (c : Client) → IsClient c → IsClient (receiver_handler e p c)
unfolding receiver_handler
receive-IsClient e p c v =
    let (prompt, sent, reading, one_chat, login, missed) = Got-receive e p.type p c in
    record {
      one_chat = one_chat v.one_chat;
      placed = ground (arith, prompt, reading, v.placed);
      login = λ h. ground (arith, prompt, v.login (login h));
      only_logins = λ h. ground (arith, sent, v.only_logins (login h));
    }

either-IsClient :
    (b : Bool) (c d : Client)
    → (b ≡ true → IsClient c)
    → (b ≡ false → IsClient d)
    → IsClient (if b then c else d)
either-IsClient true c d f g = f refl
either-IsClient false c d f g = g refl

-- Whether the connection is lost does not matter.
checked-IsClient : (b : Bool) (c : Client) → IsClient c → IsClient (record c { flag_check = b })
checked-IsClient b c v = record {
  one_chat = v.one_chat;
  placed = v.placed;
  login = v.login;
  only_logins = v.only_logins;
}

shown-IsClient : (t : Text) (c : Client) → IsClient c → IsClient (say_line t c)
unfolding say_line say
shown-IsClient t c v = record {
  one_chat = v.one_chat;
  placed = v.placed;
  login = v.login;
  only_logins = v.only_logins;
}

again-IsClient :
    (p : Package) (c : Client) → c.user.flag_l ≡ true → IsClient c → IsClient (send_package p c).1
unfolding send_package send say_line say
again-IsClient p c l v = record {
  one_chat = ground (arith, v.one_chat);
  placed = ground (arith, v.placed);
  login = λ h. ground (arith, l, h);
  only_logins = λ h. absurd (ground (arith, l, h));
}

-- A user who is logged in logs in again.
reconnect-IsClient : (e : Env) (c : Client) → IsClient c → IsClient (reconnect e c)
unfolding reconnect
reconnect-IsClient e c v =
    let found : Client = record c { flag_check = false } in
    let p = set_up e (get_username e c.user) (get_password e c.user) (package_of e loginn) in
    either-IsClient c.user.flag_l (send_package p found).1 found
      (λ l. again-IsClient p found l (checked-IsClient false c v)) (λ l. checked-IsClient false c v)

-- Each step of either thread keeps the invariant.
pub step-IsClient : (e : Env) (ev : Event) (c : Client) → IsClient c → IsClient (step e ev c)
unfolding step
step-IsClient e (line s) c v =
    either-IsClient (is_reading c.phase) (enter_line e c.prompt s c) c
      (λ r.
        IsClient-Moved c (enter_line e c.prompt s c) v (Moved-enter_line e c.prompt s c v.placed)
          (λ l. Logs-enter_line e c.prompt s c (v.login l) (v.login l) l))
      (λ r. v)
step-IsClient e (number n) c v =
    either-IsClient (is_reading c.phase) (enter_number e c.prompt n c) c
      (λ r.
        IsClient-Moved c (enter_number e c.prompt n c) v
          (Moved-enter_number e c.prompt n c v.placed)
          (λ l. Logs-enter_number e c.prompt n c (v.login l) (v.login l)))
      (λ r. v)
step-IsClient e proceed c v = go_on-IsClient e c.phase c refl v
step-IsClient e (received p) c v =
    either-IsClient c.flag_check c (receiver_handler e p c) (λ r. v) (λ r. receive-IsClient e p c v)
step-IsClient e failed c v =
    either-IsClient c.flag_check c (say_line (txt "Err receiver package from server") c) (λ r. v)
      (λ r. shown-IsClient (txt "Err receiver package from server") c v)
step-IsClient e closed c v = checked-IsClient true c v
step-IsClient e reconnected c v =
    either-IsClient c.flag_check (reconnect e c) c (λ r. reconnect-IsClient e c v) (λ r. v)

pub start-IsClient : (e : Env) → IsClient (start e)
unfolding start new_client new_user set_username set_password set_state set_roles top ask read_at
    say_line say
start-IsClient e = record {
  one_chat = refl;
  placed = refl;
  login = λ h. refl;
  only_logins = λ h. tt;
}

run-IsClient : (e : Env) (evs : List Event) (c : Client) → IsClient c → IsClient (run e evs c)
unfolding run
run-IsClient e [] c v = v
run-IsClient e (ev ∷ evs) c v = run-IsClient e evs (step e ev c) (step-IsClient e ev c v)

-- In every state that the client reaches, whatever is typed, received or lost: it is in no more than
-- one conversation; the main thread waits for the other exactly at the prompts that are made for it;
-- and as long as nobody is logged in, the client stands in `loginHandler` and has sent nothing but
-- logins.
pub run-start-IsClient : (e : Env) (evs : List Event) → IsClient (run e evs (start e))
run-start-IsClient e evs = run-IsClient e evs (start e) (start-IsClient e)
