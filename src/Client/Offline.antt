-- ===== src/Client/Offline.antt =====
-- The client while the server is gone.
use chat_service_socket_cpp.Common.{sym, ◌≡◌, refl, Bool, true, false, arith, All, List, [], ◌∷◌}
use chat_service_socket_cpp.Env.{Env}
use chat_service_socket_cpp.Client.State.{Phase, Client}
use chat_service_socket_cpp.Client.Receiver.{lose_server}
use chat_service_socket_cpp.Client.Main.{
  Event, go_on, step, run, line, number, proceed, received, failed, closed, reconnected,
}
use chat_service_socket_cpp.Client.Invariant.{is_wait, IsPlaced, but_roles, Moved-test_flags}
use chat_service_socket_cpp.Client.Invariant.Steps.{
  IsClient, Moved-enter_line, Moved-enter_number, Moved-wake,
}
use chat_service_socket_cpp.Client.Invariant.Runs.{step-IsClient}

abbrev pub is_reconnected : Event → Bool
is_reconnected reconnected = true
is_reconnected _ = false

-- Nothing but requests for the roles is sent, and the server stays gone.
abbrev Silent : Client → Client → Type 0
Silent c d = (d.flag_check ≡ true) × (but_roles d.sent ≡ but_roles c.sent)

go_on-Silent :
    (e : Env) (f : Phase) (c : Client)
    → f ≡ c.phase
    → IsPlaced c
    → c.flag_check ≡ true
    → Silent c (go_on e f c)
unfolding go_on
go_on-Silent e Phase.signalled c h p g =
    let w : is_wait c.prompt ≡ true = ground (arith, h, p) in
    ground (arith, g, Moved-wake e c.prompt c w)
go_on-Silent e Phase.before_test c h p g =
    ground (arith, h, g, Moved-test_flags c.prompt c (sym h) refl p)
go_on-Silent e Phase.before_wait c h p g = ground (arith, g)
go_on-Silent e Phase.reading c h p g = ground (arith, g)
go_on-Silent e Phase.waiting c h p g = ground (arith, g)

step-Silent :
    (e : Env) (ev : Event) (c : Client)
    → IsPlaced c
    → c.flag_check ≡ true
    → is_reconnected ev ≡ false
    → Silent c (step e ev c)
unfolding step lose_server
step-Silent e (line s) c p g h = ground (arith, g, Moved-enter_line e c.prompt s c p)
step-Silent e (number n) c p g h = ground (arith, g, Moved-enter_number e c.prompt n c p)
step-Silent e proceed c p g h = go_on-Silent e c.phase c refl p g
step-Silent e (received q) c p g h = ground (arith, g)
step-Silent e failed c p g h = ground (arith, g)
step-Silent e closed c p g h = ground (arith, g)
step-Silent e reconnected c p g h = absurd (ground (arith, h))

-- From the end of the connection until `reconnectServer` reaches the server again, whatever is typed
-- and whatever would arrive, the client sends nothing but requests for the roles, which `modifyHandler`
-- sends without the test of `sendPackage`.
pub run-offline :
    (e : Env) (evs : List Event) (c : Client)
    → IsClient c
    → c.flag_check ≡ true
    → All (λ ev. is_reconnected ev ≡ false) evs
    → but_roles (run e evs c).sent ≡ but_roles c.sent
unfolding run
run-offline e [] c v g h = refl
run-offline e (ev ∷ evs) c v g h =
    let s = step-Silent e ev c v.placed g h.0 in
    ground (arith, s, run-offline e evs (step e ev c) (step-IsClient e ev c v) s.0 h.1)
