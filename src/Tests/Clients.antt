-- ===== src/Tests/Clients.antt =====
-- The theorems on the client, at a client with the small server.
use chat_service_socket_cpp.Common.{
  Text, ◌≡◌, ◌+◌, ◌≤◌, ◌↔◌, refl, false, arith, [], ◌∷◌, txt, text_eq, length, if◌then◌else◌, List,
}
use chat_service_socket_cpp.Common.Int.{pos}
use chat_service_socket_cpp.Memory.{
  poke, strcpy, cstr, str_to_char, read_word, write_word, word_of_int, int_of_word,
}
use chat_service_socket_cpp.Package
use chat_service_socket_cpp.Package.{
  u_name, p_word, login_state, get_role, field, size_message, p_word_at, state_at, role_at, align,
  EType, Package, fresh, set_rev, mess_send, room_name, room_capacity, set_sender,
}
use chat_service_socket_cpp.StdMap.{first}
use chat_service_socket_cpp.Server.State.{find_user_by_fd, checkfd}
use chat_service_socket_cpp.Server.Chat.{leave_chat_user}
use chat_service_socket_cpp.Server.Dispatch.{analyze_package}
use chat_service_socket_cpp.Server.Login.{login_package}
use chat_service_socket_cpp.Server.Invariant.{Ends}
use chat_service_socket_cpp.Client.User.{
  new_user, get_roles, set_username, set_password, set_state, set_roles,
}
use chat_service_socket_cpp.Client.Color.{Color, color_size, change_color, clear_opt, shift_left}
use chat_service_socket_cpp.Client.Color.Bounds.{change_color_size}
use chat_service_socket_cpp.Client.Color.Shift.{clear_opt-drop}
use chat_service_socket_cpp.Client.Text.{before_space, after_space, has_space, behind_space}
use chat_service_socket_cpp.Client.State.{
  Phase, Client, wait_command, ask, read_at, signal, send_package, send, wait, input_line, say_line,
  say,
}
use chat_service_socket_cpp.Client.Login.{login_username, login_password, login_request}
use chat_service_socket_cpp.Client.Loop.{top, command_loop, open_chat}
use chat_service_socket_cpp.Client.Menu.{show_menu, user_menu, menu_line, title, blanks}
use chat_service_socket_cpp.Client.Command.{command_handler, not_found}
use chat_service_socket_cpp.Client.Receiver.{receiver_handler, lose_server, receive, log_in}
use chat_service_socket_cpp.Client.Main.{
  Event, enter_line, go_on, wake, run, step, start, new_client, line, proceed, received, closed,
}
use chat_service_socket_cpp.Client.Invariant.Steps.{IsClient}
use chat_service_socket_cpp.Client.Invariant.Runs.{run-start-IsClient}
use chat_service_socket_cpp.Client.Offline.{run-offline}
use chat_service_socket_cpp.Client.Roles.{is_form, Ordinary}
use chat_service_socket_cpp.Client.Roles.Runs.{run-Ordinary}
use chat_service_socket_cpp.Client.Answers.{Waits}
use chat_service_socket_cpp.Client.Answers.Requests.{Brings, request-wakes, terminate-wakes}
use chat_service_socket_cpp.Package.{set_type_with, with_success}
use chat_service_socket_cpp.Client.Invariant.{but_roles}
use chat_service_socket_cpp.Tests.{env, bob, hi, bob_user, world}

run-start-IsClient_example : IsClient (run env (line bob ∷ line hi ∷ proceed ∷ []) (start env))
run-start-IsClient_example = run-start-IsClient env (line bob ∷ line hi ∷ proceed ∷ [])

-- The client after the end of the connection.
abbrev cut_off : Client
cut_off = run env (closed ∷ []) (start env)

run-offline_example :
    but_roles (run env (line bob ∷ line hi ∷ []) cut_off).sent ≡ but_roles cut_off.sent
unfolding run step lose_server
run-offline_example =
    run-offline env (line bob ∷ line hi ∷ []) cut_off (run-start-IsClient env (closed ∷ [])) refl
      (refl, (refl, tt))

-- A user without the role of an administrator logs in, and asks for a form.
abbrev bob_events : List Event
bob_events =
    line bob
    ∷ line hi
    ∷ proceed
    ∷ received (login_package env bob_user)
    ∷ proceed
    ∷ line (txt "?deleteuser")
    ∷ []

run-Ordinary_example :
    Ordinary (run env bob_events (start env)).sent
    × (is_form (run env bob_events (start env)).prompt ≡ false)
unfolding run step enter_line go_on wake receiver_handler receive log_in show_menu user_menu
    menu_line title say_line say blanks signal start new_client new_user top ask read_at get_roles
    set_username set_password set_state set_roles login_username login_password login_request
    send_package send wait command_handler before_space after_space has_space behind_space not_found
    command_loop open_chat input_line login_package fresh Package.set_up Package.set_state
    Package.set_role Package.set_mess u_name p_word login_state get_role field str_to_char read_word
    write_word word_of_int int_of_word cstr poke strcpy txt text_eq size_message p_word_at state_at
    role_at align
run-Ordinary_example =
    run-Ordinary env bob_events (refl, (refl, (refl, (refl, (refl, (refl, refl))))))

-- "?r hi"
abbrev red_hi : Text
red_hi = 63 ∷ 114 ∷ 32 ∷ 104 ∷ 105 ∷ []

clear_opt-drop_example :
    let m = strcpy 0 red_hi (λ b. 0) in
    let begun = poke 1 (m 4) (poke 0 (m 3) m) in
    (clear_opt red_hi ≡ hi) × (shift_left 9 6 2 begun ≡ shift_left 5 6 2 begun)
clear_opt-drop_example = clear_opt-drop 63 114 104 9 (105 ∷ []) (ground arith) (omega arith)

change_color_size_example :
    (length (change_color hi Color.red) + 1 ≤ color_size) ↔ (length hi ≤ 1012)
change_color_size_example = change_color_size hi Color.red

-- A client that waits for the answer to a command.
abbrev waiting : Client
waiting = record (start env) { prompt = wait_command; phase = Phase.waiting }

waiting-Waits : Waits waiting
unfolding start new_client top ask read_at say_line say
waiting-Waits = record { waiting = refl; asked = refl; online = refl }

request-wakes_example :
    Ends
      (λ x. Brings env waiting (pos 4) Phase.reading x.out)
      (analyze_package env (pos 4) (fresh env EType.getuser) world)
unfolding fresh checkfd first
request-wakes_example =
    request-wakes env (pos 4) (fresh env EType.getuser) world waiting refl refl refl waiting-Waits

terminate-wakes_example :
    Brings env waiting
      (pos 4)
      (if text_eq (find_user_by_fd env (pos 4) world).state.name []
        then Phase.waiting
        else Phase.reading)
      (leave_chat_user env (pos 4) world).out
terminate-wakes_example = terminate-wakes env (pos 4) world waiting waiting-Waits
