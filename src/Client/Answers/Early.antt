-- ===== src/Client/Answers/Early.antt =====
-- Answers that come before the main thread waits for them.
use chat_service_socket_cpp.Common.{◌≡◌, refl, arith, List, [], ◌∷◌, ◌++◌, Text, map}
use chat_service_socket_cpp.Env.{Env}
use chat_service_socket_cpp.Package.{Package}
use chat_service_socket_cpp.Client.State.{Phase, Client}
use chat_service_socket_cpp.Client.Receiver.{receiver_handler}
use chat_service_socket_cpp.Client.Main.{run, step, go_on, received, proceed, line}
use chat_service_socket_cpp.Client.Invariant.Receiver.{Got-receive}

-- The main thread has sent a request, goes to `pthread_cond_wait` and has not yet come to it.
abbrev IsAsking : Client → Client → Type 0
IsAsking c d = (d.phase ≡ Phase.before_wait) × (d.prompt ≡ c.prompt) × (d.sent ≡ c.sent)

received-IsAsking :
    (e : Env) (q : Package) (c d : Client) → IsAsking c d → IsAsking c (step e (received q) d)
unfolding step receiver_handler
received-IsAsking e q c d a = ground (arith, a, Got-receive e q.type q d)

run-IsAsking :
    (e : Env) (qs : List Package) (c d : Client)
    → IsAsking c d
    → (x : Client) × IsAsking c x × (run e (map received qs ++ proceed ∷ []) d ≡ step e proceed x)
unfolding run
run-IsAsking e [] c d a = (d, a, refl)
run-IsAsking e (q ∷ qs) c d a =
    run-IsAsking e qs c (step e (received q) d) (received-IsAsking e q c d a)

-- The client loses every answer that comes directly before a wait. Whatever packages a client receives
-- after its main thread has sent a request and, behind a command, found both flags unset, and before it
-- comes to the wait: the main thread then waits, at the same place and with nothing more sent, and no
-- line that is typed changes anything.
pub run-early :
    (e : Env) (qs : List Package) (s : Text) (c : Client)
    → c.phase ≡ Phase.before_wait
    → let d = run e (map received qs ++ proceed ∷ []) c in
      (d.phase ≡ Phase.waiting)
      × (d.prompt ≡ c.prompt)
      × (d.sent ≡ c.sent)
      × (step e (line s) d ≡ d)
unfolding step go_on
run-early e qs s c h =
    let (x, a, on) = run-IsAsking e qs c c (h, refl, refl) in ground (arith, a, on)
