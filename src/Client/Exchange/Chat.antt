-- ===== src/Client/Exchange/Chat.antt =====
-- `withHandler` of the client and `OneToOneChat` of the server: a line on its way to another user.
use chat_service_socket_cpp.Common.{
  ◌<◌, ◌≡◌, refl, true, false, arith, some, [], ◌∷◌, Text, txt, text_eq, length, ap, ◌∙◌,
}
use chat_service_socket_cpp.Common.Int.{ℤ, pos, int_eq, is_neg}
use chat_service_socket_cpp.Env.{Env}
use chat_service_socket_cpp.Memory.{Memory, strcpy, NoNul, str_to_char, write_word}
use chat_service_socket_cpp.Memory.Laws.{str_to_char-eq}
use chat_service_socket_cpp.Memory.Words.{Fits, read_word-write_word, read_word-strcpy_before}
use chat_service_socket_cpp.Package
use chat_service_socket_cpp.Package.{
  EType, Package, mess, sender, send_time, mess_send, set_sender, sender_at, send_time_at, set_type,
}
use chat_service_socket_cpp.Package.Fields.{FitsIn, sizes, mess-set_sender, sender-set_sender}
use chat_service_socket_cpp.User.{User, user_key}
use chat_service_socket_cpp.StdMap.{find}
use chat_service_socket_cpp.Server.State.{World, write, checkfd}
use chat_service_socket_cpp.Server.Chat.{one_to_one_chat, send_to_user, chat_sender}
use chat_service_socket_cpp.Server.Dispatch.{analyze_package, dispatch}
use chat_service_socket_cpp.Client.Package.{package_of, set_mess, set_time}
use chat_service_socket_cpp.Client.Text.{contains, drop_last}
use chat_service_socket_cpp.Client.Color.{detectmess}
use chat_service_socket_cpp.Client.State.{
  Phase, Client, chat_with, ask, send_package, send, input_line, read_at, say,
}
use chat_service_socket_cpp.Client.Loop.{after_with, top, open_chat, command_loop}
use chat_service_socket_cpp.Client.Chat.{with_handler, send_chat}
use chat_service_socket_cpp.Client.Main.{run, enter_line, line}
use chat_service_socket_cpp.Client.Exchange.Login.{step-line}

-- The package of a message.
abbrev pub chat_package : Env → Text → Package
chat_package e m = set_mess e m (package_of e EType.send_mess)

pub sent-top : (e : Env) (c : Client) → (top e c).sent ≡ c.sent
unfolding top open_chat command_loop ask read_at input_line say
sent-top e c = ground arith

sent-after_with : (e : Env) (c : Client) → (after_with e c).sent ≡ c.sent
unfolding after_with read_at input_line say
sent-after_with e c = ground (arith, sent-top e c)

-- A line that is neither empty nor a command goes out with its colour.
sent-with_handler :
    (e : Env) (t : Text) (c : Client)
    → let mes = drop_last (str_to_char t) in
      contains (txt "?back") mes ≡ false
      → text_eq mes [] ≡ false
      → c.flag_check ≡ false
      → (with_handler e t c).sent ≡ chat_package e (detectmess mes c.option).0 ∷ c.sent
unfolding with_handler send_chat send_package send
sent-with_handler e t c b n o =
    let mes = drop_last (str_to_char t) in
    ground (arith, b, n, o, sent-after_with e (send_chat e mes c))

signed_mess :
    (e : Env) (m name : Text)
    → FitsIn e.size_mess m
    → mess e (set_sender e name (chat_package e m)) ≡ m
unfolding set_mess Package.set_mess
signed_mess e m name f = mess-set_sender e name m (set_time e (package_of e EType.send_mess)) f

signed_time :
    (e : Env) (m name : Text)
    → FitsIn e.size_mess m
    → length name < e.size_u
    → Fits 8 e.now
    → send_time e (set_sender e name (chat_package e m)) ≡ e.now
unfolding send_time set_sender set_mess set_time sender_at
signed_time e m name f n t =
    let p₀ = package_of e EType.send_mess in
    let m₀ : Memory = write_word 8 (send_time_at e) e.now p₀.message in
    read_word-strcpy_before 8 e.size_mess name (send_time_at e) (strcpy 0 m m₀)
      (omega (arith, sizes e))
    ∙ read_word-strcpy_before 8 0 m (send_time_at e) m₀ (omega (arith, sizes e, f.short))
    ∙ read_word-write_word 8 (send_time_at e) e.now p₀.message t

-- The fields that the receiver of a signed message reads.
pub signed_fields :
    (e : Env) (m name : Text)
    → FitsIn e.size_mess m
    → FitsIn e.size_u name
    → Fits 8 e.now
    → mess_send e (set_sender e name (chat_package e m))
      ≡ record { mess = m; sender = name; send_time = e.now }
unfolding mess_send
signed_fields e m name fm fn ft =
    let p = set_sender e name (chat_package e m) in
    let text : mess e p ≡ m = signed_mess e m name fm in
    let from : sender e p ≡ name = sender-set_sender e name (chat_package e m) fn in
    let time : send_time e p ≡ e.now = signed_time e m name fm fn.short ft in
    λ i. record { mess = text i; sender = from i; send_time = time i }

-- `OneToOneChat`, for a sender with a user who is online.
sent-one_to_one_chat :
    (e : Env) (fd : ℤ) (p : Package) (w : World) (r : User) (x : ℤ)
    → checkfd fd w ≡ true
    → p.type ≡ EType.send_mess
    → int_eq (chat_sender e fd w).state.type (pos 1) ≡ true
    → NoNul (chat_sender e fd w).username
    → find user_key (chat_sender e fd w).state.name w.users ≡ some (r, x)
    → is_neg x ≡ false
    → analyze_package e fd p w ≡ some (write x (set_sender e (chat_sender e fd w).username p) w)
unfolding analyze_package one_to_one_chat send_to_user
sent-one_to_one_chat e fd p w r x k t h n q v =
    let name = str_to_char-eq (chat_sender e fd w).username n in
    let handled : dispatch e fd p.type p w ≡ one_to_one_chat e fd p w =
      ap (λ (y : EType). dispatch e fd y p w) t ∙ (unfold dispatch in refl) in
    ground (arith, k, handled, h, q, v, name)

-- A message reaches the other user. A user in a conversation types a line that is not
-- empty and does not contain "?back", at a client with a connection: the client sends one package. If
-- the server has this user in a conversation with a user who is online, it writes that package, signed,
-- to that user's connection and does nothing else; there it is a message with the text that
-- `detectmess` makes of the line, the name of the sender and the time of sending. Text and name fit
-- their arrays, and the time has 64 bits.
pub chat-delivered :
    (e : Env) (t : Text) (c : Client) (fd : ℤ) (w : World) (r : User) (x : ℤ)
    → c.prompt ≡ chat_with
    → c.phase ≡ Phase.reading
    → c.flag_check ≡ false
    → contains (txt "?back") (drop_last (str_to_char t)) ≡ false
    → text_eq (drop_last (str_to_char t)) [] ≡ false
    → FitsIn e.size_mess (detectmess (drop_last (str_to_char t)) c.option).0
    → checkfd fd w ≡ true
    → int_eq (chat_sender e fd w).state.type (pos 1) ≡ true
    → FitsIn e.size_u (chat_sender e fd w).username
    → find user_key (chat_sender e fd w).state.name w.users ≡ some (r, x)
    → is_neg x ≡ false
    → Fits 8 e.now
    → let m = (detectmess (drop_last (str_to_char t)) c.option).0 in
      let p = set_mess e m (package_of e EType.send_mess) in
      let signed = set_sender e (chat_sender e fd w).username p in
      ((run e (line t ∷ []) c).sent ≡ p ∷ c.sent)
      × (analyze_package e fd p w ≡ some (write x signed w))
      × (signed.type ≡ EType.send_mess)
      × (mess_send e signed
          ≡ record { mess = m; sender = (chat_sender e fd w).username; send_time = e.now })
unfolding run
chat-delivered e t c fd w r x p f o b n fm k h fn q v ft =
    let m = (detectmess (drop_last (str_to_char t)) c.option).0 in
    let s = chat_sender e fd w in
    (
      ap (λ (d : Client). d.sent) (step-line e t chat_with c p f)
          ∙ (unfold enter_line in sent-with_handler e t c b n o),
      sent-one_to_one_chat e fd (chat_package e m) w r x k
          (unfold set_mess set_time package_of set_type in refl) h fn.no_nul q v,
      unfold set_sender set_mess set_time package_of set_type in refl,
      signed_fields e m s.username fm fn ft,
    )
