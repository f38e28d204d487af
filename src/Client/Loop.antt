-- ===== src/Client/Loop.antt =====
-- `Excecute` and the beginnings of the functions that it calls: where the main thread goes on. Its loop
-- reads and writes nothing between two of the prompts below.
use chat_service_socket_cpp.Common.{not, ◌||◌, txt, if◌then◌else◌}
use chat_service_socket_cpp.Env.{Env}
use chat_service_socket_cpp.Package.{nowork}
use chat_service_socket_cpp.Client.Package.{package_of}
use chat_service_socket_cpp.Client.State.{
  Phase, Prompt, Client, chat_with, chat_room, command, enter_username, wait_command, input_line,
  read_at, ask,
}

-- `withHandler` if `flag_w` is set, else `roomHandler`: one of the flags is set.
unfoldable pub open_chat : Client → Client
unfolding input_line read_at
open_chat c =
    if c.flag_w then read_at chat_with (input_line c) else read_at chat_room (input_line c)

-- The loop of `commandHandler`, at its condition.
unfoldable pub command_loop : Client → Client
unfolding open_chat input_line read_at
command_loop c = if c.flag_w || c.flag_j then open_chat c else read_at command (input_line c)

-- The loop of `Excecute`, at its start: `loginHandler`, or `commandHandler` with a new package.
unfoldable pub top : Env → Client → Client
unfolding command_loop open_chat ask package_of txt
top e c =
    if not c.user.flag_l
    then ask enter_username (txt "Enter username: ") c
    else if c.flag_w || c.flag_j
    then open_chat c
    else command_loop (record c { pkg = package_of e nowork })

-- Behind `commandHandler`, in front of `if (!flag_w && !flag_j)`.
unfoldable pub after_command : Client → Client
after_command c = record c { prompt = wait_command; phase = Phase.before_test }

-- if (!flag_w && !flag_j) pthread_cond_wait(&cond, &mutex);
unfoldable pub test_flags : Prompt → Client → Client
unfolding open_chat
test_flags wait_command c =
    if c.flag_w || c.flag_j then open_chat c else record c { phase = Phase.before_wait }
test_flags p c = c

-- `withHandler` and `roomHandler`, behind the wait.
unfoldable pub handlers : Env → Client → Client
unfolding open_chat top
handlers e c = if c.flag_w || c.flag_j then open_chat c else top e c

-- `roomHandler`, behind `withHandler`.
unfoldable pub after_with : Env → Client → Client
unfolding input_line read_at top
after_with e c = if c.flag_j then read_at chat_room (input_line c) else top e c
