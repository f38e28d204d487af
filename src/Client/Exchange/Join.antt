-- ===== src/Client/Exchange/Join.antt =====
-- `?join` at the client, `JoinRoom` of the server, and `case joinSuccess` of the client.
use chat_service_socket_cpp.Common.{
  ◌≡◌, refl, true, false, arith, some, [], ◌∷◌, ◌++◌, Text, txt, text_eq, ltb, ap, subst, sym, ◌∙◌,
  if◌then◌else◌, Option-cases, inl, inr,
}
use chat_service_socket_cpp.Common.Int.{ℤ, pos, int_eq}
use chat_service_socket_cpp.Env.{Env}
use chat_service_socket_cpp.Memory.{strcpy, str_to_char}
use chat_service_socket_cpp.Memory.Laws.{Stored-strcpy, str_to_char-eq}
use chat_service_socket_cpp.Package.{
  EType, Package, fresh, room_name, set_type, set_mess, join_success,
}
use chat_service_socket_cpp.Package.Fields.{FitsIn, sizes, field-Stored}
use chat_service_socket_cpp.User.{User, user_key, set_state}
use chat_service_socket_cpp.Room.{Room, add, list_clients, find as holds}
use chat_service_socket_cpp.Room.Laws.{add_lem}
use chat_service_socket_cpp.StdMap.{find, first, assign}
use chat_service_socket_cpp.Database.RoomsDa.{room_key}
use chat_service_socket_cpp.Server.State.{World, checkfd, sent}
use chat_service_socket_cpp.Server.Rooms.{join_room, enter_state}
use chat_service_socket_cpp.Server.Membership.{join_room-accepted}
use chat_service_socket_cpp.Server.Dispatch.{analyze_package, dispatch}
use chat_service_socket_cpp.Client.Package.{set_room}
use chat_service_socket_cpp.Client.Text.{before_space, after_space, has_space, behind_space}
use chat_service_socket_cpp.Client.State.{
  Phase, Prompt, Client, command, chat_room, wait_command, send_package, send, signal, say_line,
  say, input_line, read_at,
}
use chat_service_socket_cpp.Client.Loop.{test_flags, after_command, handlers, open_chat}
use chat_service_socket_cpp.Client.Command.{command_handler, request}
use chat_service_socket_cpp.Client.Receiver.{receive, receiver_handler, show_mess}
use chat_service_socket_cpp.Client.Main.{
  run, step, enter_line, go_on, wake, line, proceed, received,
}
use chat_service_socket_cpp.Client.Exchange.Login.{step-line}

-- The line "?join " and a name, and the package that it makes.
abbrev pub join_line : Text → Text
join_line name = 63 ∷ 106 ∷ 111 ∷ 105 ∷ 110 ∷ 32 ∷ name

abbrev pub join_request : Text → Client → Package
join_request name c = set_room (str_to_char name) (set_type EType.joinn c.pkg)

-- The client behind the command.
abbrev asked : Text → Client → Client
asked name c = record c {
  roomw = name;
  pkg = join_request name c;
  sent = join_request name c ∷ c.sent;
  prompt = wait_command;
  phase = Phase.before_test;
}

request-asked :
    (name : Text) (c : Client)
    → c.flag_check ≡ false
    → c.flag_w ≡ false
    → c.flag_j ≡ false
    → request (join_request name c) (record c { roomw = name }) ≡ asked name c
unfolding request send_package send after_command
request-asked name c o w j = ground (arith, o, w, j)

command_handler-join :
    (e : Env) (name : Text) (c : Client)
    → command_handler e (join_line name) c
      ≡ request (join_request name c) (record c { roomw = name })
unfolding command_handler before_space after_space has_space behind_space text_eq txt
command_handler-join e name c = refl

entered :
    (e : Env) (name : Text) (c : Client)
    → c.flag_check ≡ false
    → c.flag_w ≡ false
    → c.flag_j ≡ false
    → enter_line e command (join_line name) c ≡ asked name c
unfolding enter_line
entered e name c o w j = command_handler-join e name c ∙ request-asked name c o w j

-- The request, as the server reads it.
room_name-join_request :
    (e : Env) (name : Text) (c : Client)
    → FitsIn e.size_u name
    → room_name e (join_request name c) ≡ name
unfolding room_name set_room
room_name-join_request e name c f = rw (str_to_char-eq name f.no_nul) (
    field-Stored e 0 name (strcpy 0 name (set_type EType.joinn c.pkg).message)
      (Stored-strcpy 0 name (set_type EType.joinn c.pkg).message f.no_nul)
      (omega (arith, sizes e, f.short)))

join_request-type : (name : Text) (c : Client) → (join_request name c).type ≡ EType.joinn
unfolding set_room set_type
join_request-type name c = refl

dispatch-joinn :
    (e : Env) (fd : ℤ) (p : Package) (w : World)
    → checkfd fd w ≡ true
    → p.type ≡ EType.joinn
    → analyze_package e fd p w ≡ some (join_room e fd p w)
unfolding analyze_package dispatch
dispatch-joinn e fd p w k t =
    let handled : dispatch e fd p.type p w ≡ dispatch e fd EType.joinn p w =
      ap (λ (y : EType). dispatch e fd y p w) t in
    ground (arith, k, handled)

-- The answer of the server to a client that it has let in.
abbrev pub welcome : Env → Text → Package
welcome e name =
    set_mess e (str_to_char (txt "You entered room <" ++ name ++ txt ">")) (fresh e join_success)

enter_state-out :
    (e : Env) (fd : ℤ) (name : Text) (w : World) → (enter_state e fd name w).out ≡ w.out
unfolding enter_state
enter_state-out e fd name w = elim (Option-cases (first user_key (λ v. int_eq v fd) w.users)) [
  | inl q ↦ ground (arith, q)
  | inr ((u, x), q) ↦ ground (arith, q)
]

join_room-out :
    (e : Env) (fd : ℤ) (pk : Package) (w : World) (id : Text) (room : Room)
    → find room_key (room_name e pk) w.rooms ≡ some (id, room)
    → ltb room.available_users room.capacity ≡ true
    → holds fd room ≡ false
    → (join_room e fd pk w).out ≡ sent fd (welcome e (room_name e pk)) ∷ w.out
unfolding join_room
join_room-out e fd pk w id room there place new =
    let w' : World = record w { rooms = assign room_key id (add fd room).1 w.rooms } in
    ground (arith, there, place, new, add_lem fd room, enter_state-out e fd (room_name e pk) w')

-- The flags of a client that is in the room `name`.
abbrev pub IsIn : Text → Client → Type 0
IsIn name d = (d.prompt ≡ chat_room) × (d.flag_w ≡ false) × (d.flag_j ≡ true) × (d.roomw ≡ name)

abbrev let_in : Env → Package → Client → Client
let_in e q d = signal (record (show_mess e [] q d) { flag_w = false; flag_j = true })

received-join :
    (e : Env) (q : Package) (d : Client)
    → d.flag_check ≡ false
    → q.type ≡ join_success
    → step e (received q) d ≡ let_in e q d
unfolding step receiver_handler receive
received-join e q d o t =
    let handled : receive e q.type q d ≡ let_in e q d = ap (λ (x : EType). receive e x q d) t in
    ground (arith, o, handled)

let_in-flags :
    (e : Env) (q : Package) (d : Client)
    → d.phase ≡ Phase.waiting
    → let f = let_in e q d in
      (f.flag_w ≡ false)
      × (f.flag_j ≡ true)
      × (f.roomw ≡ d.roomw)
      × (f.prompt ≡ d.prompt)
      × (f.phase ≡ Phase.signalled)
unfolding show_mess signal say_line say
let_in-flags e q d h = ground (arith, h)

go_on-IsIn :
    (e : Env) (name : Text) (d : Client)
    → d.phase ≡ Phase.signalled
    → d.prompt ≡ wait_command
    → d.flag_w ≡ false
    → d.flag_j ≡ true
    → d.roomw ≡ name
    → IsIn name (step e proceed d)
unfolding step go_on
go_on-IsIn e name d h p w j r =
    let on : step e proceed d ≡ handlers e d =
      ap (λ (x : Phase). go_on e x d) h ∙ ap (λ (x : Prompt). wake e x d) p in
    subst (IsIn name) (sym on) (
      unfold handlers in
      unfold open_chat in
      unfold input_line in unfold read_at in unfold say in ground (arith, w, j, r))

-- The welcome, and the rest of the run.
welcomed-IsIn :
    (e : Env) (q : Package) (d : Client)
    → d.phase ≡ Phase.waiting
    → d.prompt ≡ wait_command
    → d.flag_check ≡ false
    → q.type ≡ join_success
    → IsIn d.roomw (run e (received q ∷ proceed ∷ []) d)
unfolding run
welcomed-IsIn e q d h p o t =
    let flags = let_in-flags e q d h in
    subst (λ y. IsIn d.roomw (step e proceed y)) (sym (received-join e q d o t))
      (go_on-IsIn e d.roomw (let_in e q d) flags.4 (flags.3 ∙ p) flags.0 flags.1 flags.2)

-- The main thread tests the flags and comes to its wait.
waits-asked :
    (e : Env) (name : Text) (c : Client)
    → c.flag_w ≡ false
    → c.flag_j ≡ false
    → run e (proceed ∷ proceed ∷ []) (asked name c)
      ≡ record (asked name c) { phase = Phase.waiting }
unfolding run step go_on test_flags
waits-asked e name c w j = ground (arith, w, j)

proceeds :
    (e : Env) (name : Text) (c : Client)
    → c.flag_w ≡ false
    → c.flag_j ≡ false
    → step e (line (join_line name)) c ≡ asked name c
    → run e (proceed ∷ proceed ∷ []) (step e (line (join_line name)) c)
      ≡ record (asked name c) { phase = Phase.waiting }
proceeds e name c w j h =
    ap (λ (y : Client). run e (proceed ∷ proceed ∷ []) y) h ∙ waits-asked e name c w j

-- A room opens on both sides. A user who is in no conversation types "?join " and a name that fits its
-- array, at a client with a connection: the client sends one request. If the server knows the client's
-- user, and a room of that name which has a place and does not hold the client, it puts the client
-- behind the others in the list of the room, and the room into the user's state, leaves every other
-- room and user alone, and its newest write is the welcome to the client; and when the client has come
-- to its wait, received the welcome and gone on, it is in the room of that name.
pub join_request_lem :
    (e : Env) (name : Text) (c : Client) (fd : ℤ) (w : World) (u : User) (v : ℤ) (id : Text)
    (room : Room) (t k : Text)
    → FitsIn e.size_u name
    → c.prompt ≡ command
    → c.phase ≡ Phase.reading
    → c.flag_check ≡ false
    → c.flag_w ≡ false
    → c.flag_j ≡ false
    → first user_key (λ v. int_eq v fd) w.users ≡ some (u, v)
    → find room_key name w.rooms ≡ some (id, room)
    → ltb room.available_users room.capacity ≡ true
    → holds fd room ≡ false
    → let p = join_request name c in
      let after = join_room e fd p w in
      ((step e (line (join_line name)) c).sent ≡ p ∷ c.sent)
      × (analyze_package e fd p w ≡ some after)
      × (after.out ≡ sent fd (welcome e name) ∷ w.out)
      × (list_clients (add fd room).1 ≡ list_clients room ++ fd ∷ [])
      × (find room_key t after.rooms
          ≡ (if text_eq name t then some (id, (add fd room).1) else find room_key t w.rooms))
      × (find user_key k after.users ≡ (
          if text_eq u.username k
          then some (set_state (pos 2) name u, fd)
          else find user_key k w.users))
      × IsIn name (
          run e
            (line (join_line name) ∷ proceed ∷ proceed ∷ received (welcome e name) ∷ proceed ∷ [])
            c)
unfolding run
join_request_lem e name c fd w u v id room t k f p h o fw fj i there place new =
    let q = welcome e name in
    let pk = join_request name c in
    let named : room_name e pk ≡ name = room_name-join_request e name c f in
    let found : find room_key (room_name e pk) w.rooms ≡ some (id, room) = rw named there in
    let accepted = λ (j : Text). join_room-accepted e fd pk w u v id room j found i place new in
    let line_eq : step e (line (join_line name)) c ≡ asked name c =
      step-line e (join_line name) command c p h ∙ entered e name c o fw fj in
    let waits : Client = record (asked name c) { phase = Phase.waiting } in
    (
      ap (λ (y : Client). y.sent) line_eq,
      dispatch-joinn e fd pk w (unfold checkfd in rw i refl) (join_request-type name c),
      join_room-out e fd pk w id room found place new
          ∙ ap (λ (y : Text). sent fd (welcome e y) ∷ w.out) named,
      (accepted t).1,
      rw named at (accepted t).0,
      rw named at (accepted k).2,
      subst (λ y. IsIn name (run e (received q ∷ proceed ∷ []) y))
          (sym (proceeds e name c fw fj line_eq))
          (welcomed-IsIn e q waits refl refl o (unfold set_mess in unfold fresh in refl)),
    )
