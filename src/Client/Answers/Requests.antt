-- ===== src/Client/Answers/Requests.antt =====
-- The requests of a client and what the server answers: whether the client goes on.
use chat_service_socket_cpp.Common.{
  ◌≡◌, refl, Bool, true, false, ◌&&◌, none, some, arith, List, [], ◌∷◌, Text, if◌then◌else◌, txt,
  text_eq,
}
use chat_service_socket_cpp.Common.Int.{ℤ, pos, negsuc, int_eq, int_eq_iff}
use chat_service_socket_cpp.Env.{Env}
use chat_service_socket_cpp.Package.{EType, Package, fresh, set_mess, set_type_with}
use chat_service_socket_cpp.User.{User, user_key}
use chat_service_socket_cpp.StdMap.{first}
use chat_service_socket_cpp.Server.State.{
  World, Run, Output, sent, reply, write, checkfd, find_user_by_fd, replace_user, is_online_at,
}
use chat_service_socket_cpp.Server.Chat.{
  with_function, connect_with, leave_chat_user, left_text, empty_state,
}
use chat_service_socket_cpp.Server.Offline.{leave_room}
use chat_service_socket_cpp.Memory.{str_to_char}
use chat_service_socket_cpp.Server.Rooms.{add_room, join_room, modify_room, delete_room}
use chat_service_socket_cpp.Server.Users.{add_user, delete_user, handle_modify_user}
use chat_service_socket_cpp.Server.Listing.{find_user, show_room, get_list_roles, get_user_online}
use chat_service_socket_cpp.Server.Dispatch.{dispatch, analyze_package}
use chat_service_socket_cpp.Server.Invariant.{Ends}
use chat_service_socket_cpp.Client.State.{Phase, Client}
use chat_service_socket_cpp.Client.Main.{run, received, proceed}
use chat_service_socket_cpp.Client.Answers.{wakes, Waits, run-wakes, run-fail_terminate}

-- The newest package goes to the client, with a type that wakes.
abbrev answers : ℤ → List Output → Bool
answers fd (sent v p ∷ more) = int_eq v fd && wakes p.type
answers fd _ = false

answers-join_room :
    (e : Env) (fd : ℤ) (pk : Package) (w : World) → answers fd (join_room e fd pk w).out ≡ true
unfolding join_room reply write fresh set_mess
answers-join_room e fd pk w = ground (arith, int_eq_iff fd fd)

answers-add_room :
    (e : Env) (fd : ℤ) (pk : Package) (w : World)
    → Ends (λ x. answers fd x.out ≡ true) (add_room e fd pk w)
unfolding add_room reply write fresh set_mess
answers-add_room e fd pk w = ground (arith, int_eq_iff fd fd)

answers-delete_user :
    (e : Env) (fd : ℤ) (pk : Package) (w : World)
    → Ends (λ x. answers fd x.out ≡ true) (delete_user e fd pk w)
unfolding delete_user reply write fresh set_mess
answers-delete_user e fd pk w = ground (arith, int_eq_iff fd fd)

answers-modify_room :
    (e : Env) (fd : ℤ) (pk : Package) (w : World) → answers fd (modify_room e fd pk w).out ≡ true
unfolding modify_room reply write fresh set_mess
answers-modify_room e fd pk w = ground (arith, int_eq_iff fd fd)

answers-delete_room :
    (e : Env) (fd : ℤ) (pk : Package) (w : World) → answers fd (delete_room e fd pk w).out ≡ true
unfolding delete_room reply write fresh set_mess
answers-delete_room e fd pk w = ground (arith, int_eq_iff fd fd)

answers-add_user :
    (e : Env) (fd : ℤ) (pk : Package) (w : World)
    → Ends (λ x. answers fd x.out ≡ true) (add_user e fd pk w)
unfolding add_user reply write fresh set_mess
answers-add_user e fd pk w = ground (arith, int_eq_iff fd fd)

answers-handle_modify_user :
    (e : Env) (fd : ℤ) (pk : Package) (w : World)
    → Ends (λ x. answers fd x.out ≡ true) (handle_modify_user e fd pk w)
unfolding handle_modify_user replace_user reply write fresh set_mess
answers-handle_modify_user e fd pk w = ground (arith, int_eq_iff fd fd)

first-is_online_at :
    (fd : ℤ) (m : List (User × ℤ))
    → int_eq fd (negsuc 0) ≡ false
    → first user_key (is_online_at fd) m ≡ first user_key (λ v. int_eq v fd) m
unfolding first
first-is_online_at fd [] h = refl
first-is_online_at fd ((u, v) ∷ m) h =
    ground (arith, h, first-is_online_at fd m h, int_eq_iff v fd, int_eq_iff v (negsuc 0))

answers-with_function :
    (e : Env) (fd : ℤ) (pk : Package) (w : World)
    → checkfd fd w ≡ true
    → int_eq fd (negsuc 0) ≡ false
    → answers fd (with_function e fd pk w).out ≡ true
unfolding with_function connect_with checkfd replace_user reply write fresh set_mess set_type_with
answers-with_function e fd pk w h k =
    ground (arith, h, int_eq_iff fd fd, first-is_online_at fd w.users k)

-- The requests behind which the client waits, but for the end of a conversation and the login.
abbrev pub is_request : EType → Bool
is_request EType.withh = true
is_request EType.joinn = true
is_request EType.show_room = true
is_request EType.get_roles = true
is_request EType.create_user = true
is_request EType.modify_user = true
is_request EType.delete_user = true
is_request EType.create_room = true
is_request EType.modify_room = true
is_request EType.delete_room = true
is_request EType.getuser = true
is_request EType.finduser = true
is_request _ = false

answers-dispatch :
    (e : Env) (fd : ℤ) (t : EType) (pk : Package) (w : World)
    → is_request t ≡ true
    → checkfd fd w ≡ true
    → int_eq fd (negsuc 0) ≡ false
    → Ends (λ x. answers fd x.out ≡ true) (dispatch e fd t pk w)
unfolding dispatch find_user show_room get_list_roles get_user_online reply write fresh set_mess
answers-dispatch e fd EType.withh pk w r h k = answers-with_function e fd pk w h k
answers-dispatch e fd EType.joinn pk w r h k = answers-join_room e fd pk w
answers-dispatch e fd EType.show_room pk w r h k = ground (arith, int_eq_iff fd fd)
answers-dispatch e fd EType.get_roles pk w r h k = ground (arith, int_eq_iff fd fd)
answers-dispatch e fd EType.create_user pk w r h k = answers-add_user e fd pk w
answers-dispatch e fd EType.modify_user pk w r h k = answers-handle_modify_user e fd pk w
answers-dispatch e fd EType.delete_user pk w r h k = answers-delete_user e fd pk w
answers-dispatch e fd EType.create_room pk w r h k = answers-add_room e fd pk w
answers-dispatch e fd EType.modify_room pk w r h k = answers-modify_room e fd pk w
answers-dispatch e fd EType.delete_room pk w r h k = answers-delete_room e fd pk w
answers-dispatch e fd EType.getuser pk w r h k = ground (arith, int_eq_iff fd fd)
answers-dispatch e fd EType.finduser pk w r h k = ground (arith, int_eq_iff fd fd)
answers-dispatch e fd t pk w r h k = absurd (ground (arith, r))

-- The server's newest write is a package to `fd`. When the client receives it and its main thread goes
-- on, that thread is in the phase `f`.
abbrev pub Brings : Env → Client → ℤ → Phase → List Output → Type 0
Brings e c fd f (sent v p ∷ more) = (v ≡ fd) × ((run e (received p ∷ proceed ∷ []) c).phase ≡ f)
Brings e c fd f _ = ⊥

Brings-answers :
    (e : Env) (c : Client) (fd : ℤ) (out : List Output)
    → Waits c
    → answers fd out ≡ true
    → Brings e c fd Phase.reading out
Brings-answers e c fd [] v h = absurd (ground (arith, h))
Brings-answers e c fd (sent x p ∷ more) v h =
    (ground (arith, h, int_eq_iff x fd), run-wakes e p c v (ground (arith, h)))
Brings-answers e c fd (Output.sent_pointer x ∷ more) v h = absurd (ground (arith, h))
Brings-answers e c fd (Output.sent_text x t ∷ more) v h = absurd (ground (arith, h))
Brings-answers e c fd (Output.closed x ∷ more) v h = absurd (ground (arith, h))

Ends-map :
    (e : Env) (c : Client) (fd : ℤ) (r : Run)
    → Waits c
    → Ends (λ x. answers fd x.out ≡ true) r
    → Ends (λ x. Brings e c fd Phase.reading x.out) r
Ends-map e c fd none v h = tt
Ends-map e c fd (some x) v h = Brings-answers e c fd x.out v h

-- A client that has a user, at a connection other than -1, asks for a conversation or a room, for a
-- list, or for one of the administrator's changes: unless an exception of the database ends the server,
-- it answers, and the answer wakes a client that waits: its main thread goes on to read from the
-- terminal.
pub request-wakes :
    (e : Env) (fd : ℤ) (pk : Package) (w : World) (c : Client)
    → is_request pk.type ≡ true
    → checkfd fd w ≡ true
    → int_eq fd (negsuc 0) ≡ false
    → Waits c
    → Ends (λ x. Brings e c fd Phase.reading x.out) (analyze_package e fd pk w)
unfolding analyze_package
request-wakes e fd pk w c r h k v =
    let asked =
      Ends-map e c fd (dispatch e fd pk.type pk w) v (answers-dispatch e fd pk.type pk w r h k) in
    ground (arith, h, asked)

-- A reply of either type, as the newest write.
Brings-reply :
    (e : Env) (c : Client) (fd : ℤ) (t : Text) (w : World)
    → Waits c
    → Brings e c fd Phase.waiting (reply e fd EType.fail_terminate t w).out
      × Brings e c fd Phase.reading (reply e fd EType.success_terminate t w).out
unfolding reply write fresh set_mess
Brings-reply e c fd t w v =
    let p = λ (k : EType). set_mess e t (fresh e k) in
    (
      (refl, run-fail_terminate e (p EType.fail_terminate) c v refl),
      (refl, run-wakes e (p EType.success_terminate) c v refl),
    )

-- The end of a conversation: a user whose state has a name is answered so that the client goes on; the
-- answer for a user without one, `failTerminate`, leaves the client waiting.
pub terminate-wakes :
    (e : Env) (fd : ℤ) (w : World) (c : Client)
    → Waits c
    → Brings e c fd
        (if text_eq (find_user_by_fd e fd w).state.name [] then Phase.waiting else Phase.reading)
        (leave_chat_user e fd w).out
unfolding leave_chat_user
terminate-wakes e fd w c v =
    let u = find_user_by_fd e fd w in
    let left = if int_eq u.state.type (pos 2) then leave_room e fd u w else w in
    let refused = str_to_char (txt "You are not connected with anyone.") in
    ground (
      arith,
      (Brings-reply e c fd refused w v).0,
      (Brings-reply e c fd (str_to_char (left_text u)) (empty_state e fd left) v).1,
    )
