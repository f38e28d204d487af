-- ===== src/Client/State.antt =====
-- The state of the client: its user, the globals of client/service/client.cpp, where the main thread
-- stands, and what was sent and shown. `sendPackage`, `inputLine`, and the waits for the receiving
-- thread.
use chat_service_socket_cpp.Common.{
  ℕ, ◌+◌, ◌-◌, suc, Bool, true, false, not, ◌&&◌, List, ◌∷◌, Text, ◌++◌, txt, ltb, if◌then◌else◌,
}
use chat_service_socket_cpp.Common.Int.{ℤ, pos, negsuc}
use chat_service_socket_cpp.Memory.{Memory}
use chat_service_socket_cpp.Package.{Package}
use chat_service_socket_cpp.Client.User.{User}
use chat_service_socket_cpp.Client.Color.{Color}

-- Where the main thread reads from the terminal or waits for `cond`, with its local variables.
pub data Prompt : Type 0 where
  -- loginHandler and Excecute
  enter_username : Prompt
  enter_password : Memory → Prompt
  wait_login wait_command : Prompt
  -- commandHandler; getAllUser and findUser wait in it
  command wait_list : Prompt
  -- withHandler and roomHandler
  chat_with chat_room wait_back_with wait_back_room : Prompt
  -- modifyHandler
  modify_username : Prompt
  modify_password : Text → Prompt
  wait_modify_roles modify_role : Text → Text → Prompt
  wait_modified : Prompt
  -- createNewUser
  create_username : Prompt
  create_password : Memory → Prompt
  wait_create_roles create_role : Memory → Memory → Prompt
  wait_created : Prompt
  -- clearUser
  delete_username wait_deleted : Prompt
  -- createNewRoom
  create_room_id : Prompt
  create_room_capacity : Text → Prompt
  wait_room_created : Prompt
  -- modifyRoomHandler
  modify_room_id : Prompt
  modify_room_capacity : Text → Prompt
  wait_room_modified : Prompt
  -- removeRoom
  delete_room_id wait_room_deleted : Prompt

-- A thread that has sent a request comes to `pthread_cond_wait` only then.
pub data Phase : Type 0 where
  reading before_test before_wait waiting signalled : Phase

pub record Client : Type 0 where
  pub user : User
  -- `flag_check == FLAG_ON`: the receiving thread looks for the server
  pub flag_check : Bool
  pub flag_w : Bool
  pub flag_j : Bool
  pub flag_w_online : Bool
  pub userw : Text
  pub roomw : Text
  -- the local variables of `Excecute` and `commandHandler`
  pub option : Color
  pub pkg : Package
  pub prompt : Prompt
  pub phase : Phase
  -- newest first
  pub sent : List Package
  pub shown : List Text

abbrev pub is_waiting : Phase → Bool
is_waiting Phase.waiting = true
is_waiting _ = false

-- cout << t
unfoldable pub say : Text → Client → Client
say t c = record c { shown = t ∷ c.shown }

unfoldable pub say_line : Text → Client → Client
unfolding say txt
say_line t c = say (t ++ txt "\n") c

-- send(clientSocket, &p, sizeof(package), 0)
unfoldable pub send : Package → Client → Client
send p c = record c { sent = p ∷ c.sent }

-- `sendPackage`
unfoldable pub send_package : Package → Client → Bool × Client
unfolding send say_line
send_package p c =
    if not c.flag_check then (true, send p c) else (false, say_line (txt "Server is not found") c)

-- `inputLine`
unfoldable pub input_line : Client → Client
unfolding say txt
input_line c =
    if not c.flag_w && not c.flag_j
    then say (txt "\rEnter your command: ") c
    else if c.flag_w
    then if c.flag_w_online
      then say (txt "\r@me<with>" ++ c.userw ++ txt "#: ") c
      else say (txt "\r@me<with>" ++ c.userw ++ txt ": ") c
    else say (txt "\r@me<with>" ++ c.roomw ++ txt ": ") c

-- The main thread asks for a line.
unfoldable pub read_at : Prompt → Client → Client
read_at p c = record c { prompt = p; phase = Phase.reading }

unfoldable pub ask : Prompt → Text → Client → Client
unfolding say read_at
ask p t c = read_at p (say t c)

-- pthread_cond_wait(&cond, &mutex)
unfoldable pub wait : Prompt → Client → Client
wait p c = record c { prompt = p; phase = Phase.before_wait }

-- pthread_cond_signal(&cond): nobody is woken if nobody waits yet.
unfoldable pub signal : Client → Client
signal c = if is_waiting c.phase then record c { phase = Phase.signalled } else c

-- k + n
unfoldable pub add_int : ℕ → ℤ → ℤ
add_int k (pos n) = pos (k + n)
add_int k (negsuc n) = if ltb n k then pos (k - suc n) else negsuc (n - k)
