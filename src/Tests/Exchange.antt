-- ===== src/Tests/Exchange.antt =====
-- The theorems on the client together with the server, at a client of the small server.
use chat_service_socket_cpp.Common.{
  ◌≡◌, refl, true, false, arith, some, [], ◌∷◌, Text, txt, text_eq,
}
use chat_service_socket_cpp.Common.Int.{pos}
use chat_service_socket_cpp.Memory.{str_to_char}
use chat_service_socket_cpp.Package.{EType, fresh, mess_send, set_sender}
use chat_service_socket_cpp.StdMap.{find, first, last}
use chat_service_socket_cpp.Server.State.{World, write, checkfd}
use chat_service_socket_cpp.Server.Chat.{chat_sender}
use chat_service_socket_cpp.Server.Dispatch.{analyze_package}
use chat_service_socket_cpp.Server.Login.{login_package}
use chat_service_socket_cpp.Client.Package.{package_of, set_mess}
use chat_service_socket_cpp.Client.Color.{change_color, detectmess, option_of, has_opt, byte_at}
use chat_service_socket_cpp.Client.Text.{contains, drop_last, starts_with}
use chat_service_socket_cpp.Client.State.{Client, chat_with, ask, read_at, say_line, say}
use chat_service_socket_cpp.Client.Loop.{top}
use chat_service_socket_cpp.Client.Receiver.{receiver_handler}
use chat_service_socket_cpp.Client.Main.{run, step, start, new_client, line, proceed, received}
use chat_service_socket_cpp.Client.Exchange.Login.{login_by}
use chat_service_socket_cpp.Client.Exchange.Chat.{chat-delivered}
use chat_service_socket_cpp.Client.Exchange.With.{with_line, status_of, connected}
use chat_service_socket_cpp.Package.{set_type_with, with_success}
use chat_service_socket_cpp.Client.State.{command}
use chat_service_socket_cpp.Common.Int.{negsuc}
use chat_service_socket_cpp.Client.State.{Phase, create_username}
use chat_service_socket_cpp.Client.Connect.{Attempt, found, server_gone}
use chat_service_socket_cpp.Client.Main.{go_on, closed, reconnected, enter_line}
use chat_service_socket_cpp.Client.Command.{command_handler, request}
use chat_service_socket_cpp.Client.Loop.{after_command, test_flags}
use chat_service_socket_cpp.Client.Text.{before_space, after_space, has_space, behind_space}
use chat_service_socket_cpp.Client.State.{send_package, send, wait}
use chat_service_socket_cpp.Client.Exchange.Recovery.{again_request, server_gone-login}
use chat_service_socket_cpp.Client.Answers.Early.{run-early}
use chat_service_socket_cpp.Common.{◌++◌, map}
use chat_service_socket_cpp.Tests.{
  env, ann, bob, hi, ann_user, bob_user, world, ann-IsName, bob-IsName, hi-FitsIn, nobody-FitsIn,
}

-- "ann" is in a conversation with "bob", who has the connection 5.
abbrev talking : World
talking = record world {
  users =
      (record ann_user { state = record { type = pos 1; name = bob } }, pos 4)
      ∷ (bob_user, pos 5)
      ∷ [];
}

abbrev talker : Client
talker = record (start env) { prompt = chat_with; flag_w = true }

-- The line "hi".
abbrev hi_line : Text
hi_line = 104 ∷ 105 ∷ 10 ∷ []

chat-delivered_example :
    let p = set_mess env hi (package_of env EType.send_mess) in
    ((run env (line hi_line ∷ []) talker).sent ≡ p ∷ talker.sent)
    × (analyze_package env (pos 4) p talking ≡ some (write (pos 5) (set_sender env ann p) talking))
    × ((set_sender env ann p).type ≡ EType.send_mess)
    × (mess_send env (set_sender env ann p) ≡ record { mess = hi; sender = ann; send_time = 77 })
unfolding detectmess option_of has_opt byte_at change_color drop_last str_to_char contains
    starts_with chat_sender find last checkfd first text_eq txt start new_client top ask read_at
    say_line say
chat-delivered_example =
    chat-delivered env hi_line talker (pos 4) talking bob_user (pos 5) refl refl refl refl refl
      (record { no_nul = ground arith; short = omega arith }) refl refl ann-IsName.fits refl refl
      (omega arith)

-- "bob", who is offline, is asked for at a client where "ann" has just logged in.
abbrev commander : Client
commander = record (start env) { prompt = command }

-- "ann" creates the administrator "cy" with the password "hi"; later somebody logs in as "cy".
abbrev creator : Client
creator = record (start env) { prompt = create_username }

-- The server that has let "bob" in is gone; two attempts fail, the third reaches it.
abbrev refused : Attempt
refused = record { socket = pos 3; connect = negsuc 0 }

abbrev reached : Attempt
reached = record { socket = pos 3; connect = pos 0 }

server_gone-login_example :
    let d = receiver_handler env (login_package env bob_user) (start env) in
    let back = run env (closed ∷ reconnected ∷ []) d in
    let p = again_request env bob hi in
    (server_gone env ((refused ∷ refused ∷ []) ++ reached ∷ []) d ≡ found back)
    × (back.flag_check ≡ false)
    × (back.prompt ≡ d.prompt)
    × (back.sent ≡ p ∷ d.sent)
    × (analyze_package env (pos 6) p world ≡ some (login_by env (pos 6) bob hi world))
server_gone-login_example =
    server_gone-login env bob_user (start env) (refused ∷ refused ∷ []) [] reached (pos 6) world
      bob-IsName.fits hi-FitsIn nobody-FitsIn (omega arith)
      (record { made = refl; refused = refl }, (record { made = refl; refused = refl }, tt))
      (record { made = refl; connected = refl })

-- "ann" asks for "bob", and the answer comes behind the test of her main thread, before it
-- waits.
abbrev asking : Client
asking = run env (line (with_line bob) ∷ proceed ∷ []) commander

run-early_example :
    let q = set_type_with env (status_of (negsuc 0)) (fresh env with_success) in
    let d = run env (map received (q ∷ []) ++ proceed ∷ []) asking in
    (d.phase ≡ Phase.waiting)
    × (d.prompt ≡ asking.prompt)
    × (d.sent ≡ asking.sent)
    × (step env (line hi) d ≡ d)
unfolding run step go_on test_flags enter_line command_handler before_space after_space has_space
    behind_space text_eq txt request send_package send after_command wait start new_client top ask
    read_at say_line say
run-early_example =
    run-early env (set_type_with env (status_of (negsuc 0)) (fresh env with_success) ∷ []) hi asking
      refl
