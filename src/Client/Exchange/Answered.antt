-- ===== src/Client/Exchange/Answered.antt =====
-- `case withSuccess` at a client that waits for the answer to `?with`.
use chat_service_socket_cpp.Common.{
  ◌≡◌, refl, Bool, true, false, arith, [], ◌∷◌, Text, ap, subst, sym, ◌∙◌, ◌==◌,
}
use chat_service_socket_cpp.Env.{Env}
use chat_service_socket_cpp.Package.{EType, Package, code, user_status, with_success, onlineuser}
use chat_service_socket_cpp.Client.State.{
  Phase, Prompt, Client, chat_with, wait_command, input_line, read_at, signal, say_line, say,
}
use chat_service_socket_cpp.Client.Loop.{handlers, open_chat}
use chat_service_socket_cpp.Client.Receiver.{receive, receiver_handler, with_party}
use chat_service_socket_cpp.Client.Main.{run, step, go_on, wake, proceed, received}

-- What `withSuccess` makes of a client that waits for it.
with_party-flags :
    (e : Env) (q : Package) (d : Client)
    → let f = signal (with_party e q d) in
      (f.flag_w ≡ true)
      × (f.flag_j ≡ false)
      × (f.flag_w_online ≡ (user_status e q == code onlineuser))
      × (f.userw ≡ d.userw)
      × (f.prompt ≡ d.prompt)
      × (d.phase ≡ Phase.waiting → f.phase ≡ Phase.signalled)
unfolding with_party signal say_line say
with_party-flags e q d = ground arith

-- The flags of a client that is with the user `name`.
abbrev pub IsWith : Text → Bool → Client → Type 0
IsWith name online d =
    (d.prompt ≡ chat_with)
    × (d.flag_w ≡ true)
    × (d.flag_j ≡ false)
    × (d.flag_w_online ≡ online)
    × (d.userw ≡ name)

wake-IsWith :
    (e : Env) (name : Text) (online : Bool) (d : Client)
    → d.flag_w ≡ true
    → d.flag_j ≡ false
    → d.flag_w_online ≡ online
    → d.userw ≡ name
    → IsWith name online (wake e wait_command d)
unfolding wake handlers open_chat read_at input_line say
wake-IsWith e name online d w j o u = ground (arith, w, j, o, u)

go_on-wake : (e : Env) (d : Client) → go_on e Phase.signalled d ≡ wake e d.prompt d
unfolding go_on
go_on-wake e d = refl

receive-signal :
    (e : Env) (q : Package) (d : Client) → receive e with_success q d ≡ signal (with_party e q d)
unfolding receive
receive-signal e q d = refl

go_on-IsWith :
    (e : Env) (name : Text) (online : Bool) (d : Client)
    → d.phase ≡ Phase.signalled
    → d.prompt ≡ wait_command
    → IsWith name online (wake e wait_command d)
    → IsWith name online (go_on e d.phase d)
go_on-IsWith e name online d f p h =
    let on : go_on e d.phase d ≡ wake e wait_command d =
      ap (λ (x : Phase). go_on e x d) f ∙ go_on-wake e d ∙ ap (λ (x : Prompt). wake e x d) p in
    subst (λ x. IsWith name online x) (sym on) h

received-with :
    (e : Env) (q : Package) (d : Client)
    → d.flag_check ≡ false
    → q.type ≡ with_success
    → step e (received q) d ≡ signal (with_party e q d)
unfolding step receiver_handler
received-with e q d o t =
    let handled : receive e q.type q d ≡ signal (with_party e q d) =
      ap (λ (x : EType). receive e x q d) t ∙ receive-signal e q d in
    ground (arith, o, handled)

-- The answer, and the rest of the run.
pub answered-IsWith :
    (e : Env) (q : Package) (online : Bool) (d : Client)
    → d.phase ≡ Phase.waiting
    → d.prompt ≡ wait_command
    → d.flag_check ≡ false
    → q.type ≡ with_success
    → (user_status e q == code onlineuser) ≡ online
    → IsWith d.userw online (run e (received q ∷ proceed ∷ []) d)
unfolding run step
answered-IsWith e q online d f p o t s =
    let x = signal (with_party e q d) in
    let got : step e (received q) d ≡ x = received-with e q d o t in
    let flags = with_party-flags e q d in
    subst (λ y. IsWith d.userw online (go_on e y.phase y)) (sym got)
      (go_on-IsWith e d.userw online x (flags.5 f) (flags.4 ∙ p)
        (wake-IsWith e d.userw online x flags.0 flags.1 (flags.2 ∙ s) flags.3))
