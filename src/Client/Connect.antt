-- ===== src/Client/Connect.antt =====
-- `connectServer`, and what the receiving thread does when the server is gone: `reconnectServer`, which
-- `doRecieving` calls until it reaches the server. What the system calls give is an argument.
use chat_service_socket_cpp.Common.{Option, none, some, List, [], ◌∷◌, txt, if◌then◌else◌}
use chat_service_socket_cpp.Common.Int.{ℤ, pos, int_eq, is_neg}
use chat_service_socket_cpp.Env.{Env}
use chat_service_socket_cpp.Client.State.{Client, say_line}
use chat_service_socket_cpp.Client.Loop.{top}
use chat_service_socket_cpp.Client.Receiver.{lose_server, reconnect}
use chat_service_socket_cpp.Client.Main.{new_client}

-- What `socket` and `connect` give in one call of `reconnectServer`.
pub record Attempt : Type 0 where
  pub socket : ℤ
  pub connect : ℤ

-- The end of `reconnectServer`: `pthread_exit` has ended the thread, or it returns 1 or 0.
pub data Outcome : Type 0 where
  exited again reached : Outcome

-- `reconnectServer`, behind the close of the old socket. Behind `pthread_exit` nothing runs.
unfoldable pub reconnect_server : Attempt → Client → Outcome × Client
unfolding say_line txt
reconnect_server a c =
    if is_neg a.socket
    then (
      exited,
      say_line (txt "Exit program!")
          (say_line (txt "\n[SERVER DISCONNECTED] Create socket failed") c),
    )
    else if is_neg a.connect
    then (again, c)
    else (reached, c)

-- `while (reconnectServer(...))`, for as many attempts as there are: the thread has ended, the server
-- is found, or the thread is still looking.
pub data Search : Type 0 where
  ended found looking : Client → Search

unfoldable pub look_for_server : List Attempt → Client → Search
unfolding reconnect_server
look_for_server [] c = looking c
look_for_server (a ∷ attempts) c =
    let (outcome, c') = reconnect_server a c in
    elim outcome [ exited ↦ ended c' | reached ↦ found c' | again ↦ look_for_server attempts c' ]

-- The branch `read == 0` of `doRecieving`.
unfoldable pub server_gone : Env → List Attempt → Client → Search
unfolding look_for_server lose_server reconnect
server_gone e attempts c = elim (look_for_server attempts (lose_server c)) [
  | found c' ↦ found (reconnect e c')
  | ended c' ↦ ended c'
  | looking c' ↦ looking c'
]

-- The loop of `connectServer`, for the results of `connect`; `none`: it has not come to its end.
unfoldable pub retry_connect : List ℤ → Client → Option Client
unfolding say_line txt
retry_connect [] c = none
retry_connect (rc ∷ rcs) c =
    let rest = retry_connect rcs c in
    if int_eq rc (pos 0) then some (say_line (txt "Connection established!") c) else rest

-- `connectServer`
unfoldable pub connect_server : List ℤ → Client → Option Client
unfolding retry_connect say_line txt
connect_server [] c = none
connect_server (rc ∷ rcs) c =
    if int_eq rc (pos 0)
    then some (say_line (txt "Connection established!") c)
    else retry_connect rcs (say_line (txt "Waiting for server online...") c)

-- `main`, up to the first prompt.
unfoldable pub start_connected : Env → List ℤ → Option Client
unfolding connect_server new_client top
start_connected e rcs = elim (connect_server rcs (new_client e)) [
  | none ↦ none
  | some c ↦ some (top e c)
]
