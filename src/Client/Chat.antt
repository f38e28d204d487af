-- ===== src/Client/Chat.antt =====
-- The lines of a conversation: `withHandler` and `roomHandler`, behind `fgets`.
use chat_service_socket_cpp.Common.{Text, [], txt, text_eq, if◌then◌else◌}
use chat_service_socket_cpp.Env.{Env}
use chat_service_socket_cpp.Memory.{str_to_char}
use chat_service_socket_cpp.Package.{send_mess, terminate_chat}
use chat_service_socket_cpp.Client.Package.{package_of, set_mess}
use chat_service_socket_cpp.Client.Color.{detectmess}
use chat_service_socket_cpp.Client.Text.{contains, drop_last}
use chat_service_socket_cpp.Client.State.{
  Client, Prompt, chat_with, chat_room, wait_back_with, wait_back_room, say, send_package,
  input_line, read_at, wait,
}
use chat_service_socket_cpp.Client.Loop.{top, after_with}

-- The end of a conversation: the client waits, also when nothing was sent.
unfoldable pub terminate : Env → Prompt → Text → Client → Client
unfolding package_of set_mess send_package wait
terminate e back party c =
    wait back (send_package (set_mess e (str_to_char party) (package_of e terminate_chat)) c).1

-- An empty line: the prompt again.
unfoldable pub ask_again : Prompt → Client → Client
unfolding say input_line read_at txt
ask_again p c = read_at p (input_line (say (txt "\u{1b}[1A\r") c))

-- A message: its colour is the option, which the message can set.
unfoldable pub send_chat : Env → Text → Client → Client
unfolding detectmess package_of set_mess send_package
send_chat e mes c =
    let (text, option) = detectmess mes c.option in
    (send_package (set_mess e text (package_of e send_mess)) (record c { option = option })).1

-- `withHandler`, for what `fgets` has read
unfoldable pub with_handler : Env → Text → Client → Client
unfolding str_to_char drop_last contains terminate ask_again send_chat after_with txt
with_handler e line c =
    let mes = drop_last (str_to_char line) in
    if contains (txt "?back") mes
    then terminate e wait_back_with c.userw c
    else if text_eq mes []
    then ask_again chat_with c
    else after_with e (send_chat e mes c)

-- `roomHandler`
unfoldable pub room_handler : Env → Text → Client → Client
unfolding str_to_char drop_last contains terminate ask_again send_chat top txt
room_handler e line c =
    let mes = drop_last (str_to_char line) in
    if contains (txt "?back") mes
    then terminate e wait_back_room c.roomw c
    else if text_eq mes []
    then ask_again chat_room c
    else top e (send_chat e mes c)
