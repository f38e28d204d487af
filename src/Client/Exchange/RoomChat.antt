-- ===== src/Client/Exchange/RoomChat.antt =====
-- `roomHandler` of the client and `RoomChat` of the server: a line on its way to the members of a room.
use chat_service_socket_cpp.Common.{
  ◌≡◌, refl, true, false, arith, some, [], ◌∷◌, List, Text, txt, text_eq, ap, ◌∙◌, if◌then◌else◌,
}
use chat_service_socket_cpp.Common.Int.{ℤ, pos, int_eq, int_eq_iff}
use chat_service_socket_cpp.Env.{Env}
use chat_service_socket_cpp.Memory.{NoNul, str_to_char}
use chat_service_socket_cpp.Memory.Laws.{str_to_char-eq}
use chat_service_socket_cpp.Memory.Words.{Fits}
use chat_service_socket_cpp.Package.{EType, Package, mess_send, set_sender, set_type}
use chat_service_socket_cpp.Package.Fields.{FitsIn}
use chat_service_socket_cpp.Room.{Room, list_clients, find as holds}
use chat_service_socket_cpp.Room.Members.{contains, IsDistinct}
use chat_service_socket_cpp.Room.Laws.{find-contains}
use chat_service_socket_cpp.Server.Invariant.{IsValid}
use chat_service_socket_cpp.Server.Invariant.Sessions.{found-IsValid}
use chat_service_socket_cpp.Server.Frame.{SameState, SameState-write_all}
use chat_service_socket_cpp.Server.Sync.{Returns}
use chat_service_socket_cpp.StdMap.{find}
use chat_service_socket_cpp.Database.RoomsDa.{room_key}
use chat_service_socket_cpp.Server.State.{World, Output, write, checkfd}
use chat_service_socket_cpp.Server.Offline.{write_all}
use chat_service_socket_cpp.Server.Chat.{one_to_one_chat, room_chat, room_or_new, chat_sender}
use chat_service_socket_cpp.Server.Dispatch.{analyze_package, dispatch}
use chat_service_socket_cpp.Client.Package.{package_of, set_mess, set_time}
use chat_service_socket_cpp.Client.Text.{contains as contains_text, drop_last}
use chat_service_socket_cpp.Client.Color.{detectmess}
use chat_service_socket_cpp.Client.State.{Phase, Client, chat_room, send_package, send}
use chat_service_socket_cpp.Client.Chat.{room_handler, send_chat}
use chat_service_socket_cpp.Client.Main.{run, enter_line, line}
use chat_service_socket_cpp.Client.Exchange.Login.{step-line}
use chat_service_socket_cpp.Client.Exchange.Chat.{chat_package, sent-top, signed_fields}

sent-room_handler :
    (e : Env) (t : Text) (c : Client)
    → contains_text (txt "?back") (drop_last (str_to_char t)) ≡ false
    → text_eq (drop_last (str_to_char t)) [] ≡ false
    → c.flag_check ≡ false
    → (room_handler e t c).sent
      ≡ chat_package e (detectmess (drop_last (str_to_char t)) c.option).0 ∷ c.sent
unfolding room_handler send_chat send_package send
sent-room_handler e t c b n o =
    let mes = drop_last (str_to_char t) in ground (arith, b, n, o, sent-top e (send_chat e mes c))

-- What was written to one connection, newest first.
abbrev pub inbox : ℤ → List Output → List Package
inbox x [] = []
inbox x (Output.sent fd p ∷ out) = if int_eq fd x then p ∷ inbox x out else inbox x out
inbox x (Output.sent_pointer fd ∷ out) = inbox x out
inbox x (Output.sent_text fd t ∷ out) = inbox x out
inbox x (Output.closed fd ∷ out) = inbox x out

inbox-write_all :
    (x : ℤ) (fds : List ℤ) (p : Package) (w : World)
    → IsDistinct fds
    → inbox x (write_all fds p w).out
      ≡ (if contains x fds then p ∷ inbox x w.out else inbox x w.out)
unfolding write_all write contains
inbox-write_all x [] p w d = refl
inbox-write_all x (fd ∷ fds) p w d =
    ground (arith, inbox-write_all x fds p (write fd p w) d.1, int_eq_iff fd x, d.0)

-- `RoomChat`, for a sender in a room that the map has.
one_to_one_chat-room :
    (e : Env) (fd : ℤ) (p : Package) (w : World) (id : Text) (room : Room)
    → checkfd fd w ≡ true
    → p.type ≡ EType.send_mess
    → (chat_sender e fd w).state.type ≡ pos 2
    → NoNul (chat_sender e fd w).username
    → NoNul (chat_sender e fd w).state.name
    → find room_key (chat_sender e fd w).state.name w.rooms ≡ some (id, room)
    → analyze_package e fd p w
      ≡ some (write_all (list_clients room) (set_sender e (chat_sender e fd w).username p) w)
unfolding analyze_package one_to_one_chat room_chat room_or_new
one_to_one_chat-room e fd p w id room k t h n m q =
    let name = str_to_char-eq (chat_sender e fd w).username n in
    let at = str_to_char-eq (chat_sender e fd w).state.name m in
    let handled : dispatch e fd p.type p w ≡ one_to_one_chat e fd p w =
      ap (λ (y : EType). dispatch e fd y p w) t ∙ (unfold dispatch in refl) in
    ground (arith, k, handled, h, q, name, at)

-- A line in a room reaches its members. A user in a room types a line that is not empty and does not
-- contain "?back", at a client with a connection: the client sends one package. If the maps of the
-- server are well-formed and have this user in a room that is there, the server handles the package
-- without an exception and changes no map and no table, and to every connection it has then written
-- one more package exactly if the room holds it: the one that was sent, signed, a message with the text
-- that `detectmess` makes of the line, the name of the sender and the time of sending. Text and name
-- fit their arrays, and the time has 64 bits.
pub room_chat-delivered :
    (e : Env) (t : Text) (c : Client) (fd : ℤ) (w : World) (id : Text) (room : Room) (x : ℤ)
    → c.prompt ≡ chat_room
    → c.phase ≡ Phase.reading
    → c.flag_check ≡ false
    → contains_text (txt "?back") (drop_last (str_to_char t)) ≡ false
    → text_eq (drop_last (str_to_char t)) [] ≡ false
    → FitsIn e.size_mess (detectmess (drop_last (str_to_char t)) c.option).0
    → IsValid w
    → checkfd fd w ≡ true
    → (chat_sender e fd w).state.type ≡ pos 2
    → FitsIn e.size_u (chat_sender e fd w).username
    → NoNul (chat_sender e fd w).state.name
    → find room_key (chat_sender e fd w).state.name w.rooms ≡ some (id, room)
    → Fits 8 e.now
    → let m = (detectmess (drop_last (str_to_char t)) c.option).0 in
      let p = set_mess e m (package_of e EType.send_mess) in
      let signed = set_sender e (chat_sender e fd w).username p in
      ((run e (line t ∷ []) c).sent ≡ p ∷ c.sent)
      × Returns
          (λ v.
            SameState v w
            × (inbox x v.out ≡ (if holds x room then signed ∷ inbox x w.out else inbox x w.out)))
          (analyze_package e fd p w)
      × (signed.type ≡ EType.send_mess)
      × (mess_send e signed
          ≡ record { mess = m; sender = (chat_sender e fd w).username; send_time = e.now })
unfolding run
room_chat-delivered e t c fd w id room x p f o b n fm valid k h fn nn q ft =
    let m = (detectmess (drop_last (str_to_char t)) c.option).0 in
    let s = chat_sender e fd w in
    let pk = chat_package e m in
    let signed = set_sender e s.username pk in
    let type : pk.type ≡ EType.send_mess =
      unfold set_mess in unfold set_time in unfold package_of in unfold set_type in refl in
    let members = found-IsValid s.state.name w id room valid q in
    (
      ap (λ (d : Client). d.sent) (step-line e t chat_room c p f)
          ∙ (unfold enter_line in sent-room_handler e t c b n o),
      rw (one_to_one_chat-room e fd pk w id room k type h fn.no_nul nn q) (
        SameState-write_all (list_clients room) signed w,
        rw (find-contains x room) (inbox-write_all x (list_clients room) signed w members.distinct),
      ),
      unfold set_sender in type,
      signed_fields e m s.username fm fn ft,
    )
