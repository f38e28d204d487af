-- ===== src/Server/Delivery.antt =====
-- Messages for absent users: `OneToOneChat` and `handleOfflineMessage`.
use chat_service_socket_cpp.Common.{
  ℕ, ◌≡◌, ◌≤◌, refl, Bool, true, false, arith, All, List, [], ◌∷◌, ◌++◌, some, map, length,
  Bool-cases, inl, inr, text_eq, if◌then◌else◌, ◌==◌, sym, ◌∙◌,
}
use mathlib.Core.List.{append_assoc}
use chat_service_socket_cpp.Common.Int.{ℤ, is_neg}
use chat_service_socket_cpp.Env.{Env, IsReflexive}
use chat_service_socket_cpp.Memory.{str_to_char}
use chat_service_socket_cpp.Memory.Laws.{str_to_char-eq}
use chat_service_socket_cpp.Memory.Words.{Fits}
use chat_service_socket_cpp.Message.{MessageSend}
use chat_service_socket_cpp.Package.{
  Package, send_mess, nowork, set_type, set_offline_mess, mess_send, fresh, set_sender,
}
use chat_service_socket_cpp.Package.Fields.{FitsIn, mess_send-set_offline_mess}
use chat_service_socket_cpp.User.{User, user_key}
use chat_service_socket_cpp.StdMap.{find}
use chat_service_socket_cpp.Database.Access
use chat_service_socket_cpp.Database.MessagesDa.{read_message}
use chat_service_socket_cpp.Database.Sql.{MessageRow, select, delete, by_receiver}
use chat_service_socket_cpp.Server.State.{World, Output, sent, write, find_user_by_fd}
use chat_service_socket_cpp.Server.Offline.{deliver, handle_offline_message}
use chat_service_socket_cpp.Server.Frame.{SameState-deliver}
use chat_service_socket_cpp.Server.Chat.{send_to_user}
use chat_service_socket_cpp.Server.Sync.{IsSynced, Savable}
use chat_service_socket_cpp.Server.Sync.Keep.{row_of_name}
use chat_service_socket_cpp.Server.Sync.Chat.{signed_sender, save_message_lem}

-- The messages that the loop reaches: those before the first that is empty.
abbrev pub until_empty : List MessageSend → List MessageSend
until_empty [] = []
until_empty (msg ∷ msgs) = if text_eq msg.mess [] then [] else msg ∷ until_empty msgs

-- A message that a package carries whole.
pub record IsSendable (e : Env) (msg : MessageSend) : Type 0 where
  pub text : FitsIn e.size_mess msg.mess
  pub name : FitsIn e.size_u msg.sender
  pub time : Fits 8 msg.send_time

-- From `before` to `after`, the client `fd` is sent these messages in this order, and nothing else
-- is sent.
abbrev pub Receives : Env → ℤ → List MessageSend → List Output → List Output → Type 0
Receives e fd [] before after = after ≡ before
Receives e fd (msg ∷ msgs) before after =
    (p : Package) × (p.type ≡ send_mess)
    × (mess_send e p ≡ msg)
    × Receives e fd msgs (sent fd p ∷ before) after

pub deliver_lem :
    (e : Env) (fd : ℤ) (msgs : List MessageSend) (p : Package) (w : World)
    → All (IsSendable e) (until_empty msgs)
    → Receives e fd (until_empty msgs) w.out (deliver e fd msgs p w).out
unfolding deliver write set_offline_mess mess_send
deliver_lem e fd [] p w h = refl
deliver_lem e fd (msg ∷ msgs) p w h =
    let p' = set_type send_mess (set_offline_mess e msg p) in
    elim (Bool-cases (text_eq msg.mess [])) [
      | inl empty ↦ rw empty refl
      | inr full ↦
          let k : All (IsSendable e) (msg ∷ until_empty msgs) = rw full at h in
          rw full (
            p',
            unfold set_type in refl,
            unfold set_type in mess_send-set_offline_mess e msg p k.0.text k.0.name k.0.time,
            deliver_lem e fd msgs p' (write fd p' w) k.1,
          )
    ]

-- What is stored for a user, as the loop reads it: whole messages, none of them empty.
abbrev pub AllSendable : Env → List MessageSend → Type 0
AllSendable e msgs = All (λ msg. IsSendable e msg × (text_eq msg.mess [] ≡ false)) msgs

pub AllSendable-All :
    (e : Env) (msgs : List MessageSend) → AllSendable e msgs → All (IsSendable e) msgs
AllSendable-All e [] h = tt
AllSendable-All e (msg ∷ msgs) h = (h.0.0, AllSendable-All e msgs h.1)

-- Nothing is left for whom all is deleted.
pub select-delete {ℓ} : {A : Type ℓ} (p : A → Bool) (xs : List A) → select p (delete p xs) ≡ []
unfolding select
select-delete p [] = refl
select-delete p (x ∷ xs) = ground (arith, select-delete p xs)

empty_if_no_row {ℓ} : {A : Type ℓ} (xs : List A) → (length xs == 0) ≡ true → xs ≡ []
empty_if_no_row [] h = refl
empty_if_no_row (x ∷ xs) h = absurd (ground (arith, h))

-- The messages of the table for the user of a connection.
abbrev pub stored_for : Env → ℤ → World → List MessageRow
stored_for e fd w = select (by_receiver e (find_user_by_fd e fd w).username) w.db.messages

-- The handler without its detour by the null pointer.
abbrev pub all_delivered : Env → ℤ → World → World
all_delivered e fd w =
    let told =
      deliver e fd (map read_message (stored_for e fd w) ++ e.junk_messages) (fresh e nowork) w in
    record told {
      db = record told.db {
        messages = delete (by_receiver e (find_user_by_fd e fd w).username) told.db.messages;
      };
    }

pub handle_offline_message-cases :
    (e : Env) (fd : ℤ) (w : World)
    → handle_offline_message e fd w
      ≡ (if length (stored_for e fd w) == 0 then w else all_delivered e fd w)
unfolding handle_offline_message Access.get_message_of_user Access.delete_message_of_user
handle_offline_message-cases e fd w = elim (Bool-cases (length (stored_for e fd w) == 0)) [
  | inl h ↦ ground (arith, h)
  | inr h ↦ ground (arith, h)
]

-- From `before` to `after`, the client `fd` is first sent these messages in this order.
abbrev pub Begins : Env → ℤ → List MessageSend → List Output → List Output → Type 0
Begins e fd [] before after = (more : List Output) × (after ≡ more ++ before)
Begins e fd (msg ∷ msgs) before after =
    (p : Package) × (p.type ≡ send_mess)
    × (mess_send e p ≡ msg)
    × Begins e fd msgs (sent fd p ∷ before) after

deliver_more :
    (e : Env) (fd : ℤ) (msgs : List MessageSend) (p : Package) (w : World)
    → Begins e fd [] w.out (deliver e fd msgs p w).out
unfolding deliver write
deliver_more e fd [] p w = ([], refl)
deliver_more e fd (msg ∷ msgs) p w =
    let p' = set_type send_mess (set_offline_mess e msg p) in
    elim (Bool-cases (text_eq msg.mess [])) [
      | inl empty ↦ rw empty ([], refl)
      | inr full ↦
          let (more, h) = deliver_more e fd msgs p' (write fd p' w) in
          rw full (more ++ sent fd p' ∷ [], h ∙ sym (append_assoc more (sent fd p' ∷ []) w.out))
    ]

deliver-Begins :
    (e : Env) (fd : ℤ) (msgs rest : List MessageSend) (p : Package) (w : World)
    → AllSendable e msgs
    → Begins e fd msgs w.out (deliver e fd (msgs ++ rest) p w).out
unfolding deliver write set_offline_mess mess_send
deliver-Begins e fd [] rest p w h = deliver_more e fd rest p w
deliver-Begins e fd (msg ∷ msgs) rest p w h =
    let p' = set_type send_mess (set_offline_mess e msg p) in
    let k = h.0.0 in
    rw h.0.1 (
      p',
      unfold set_type in refl,
      unfold set_type in mess_send-set_offline_mess e msg p k.text k.name k.time,
      deliver-Begins e fd msgs rest p' (write fd p' w) h.1,
    )

-- The message of a row, and the rows whose messages a package carries whole.
abbrev pub whole : MessageRow → MessageSend
whole row = record { mess = row.message; sender = row.sender; send_time = row.time }

read_message-whole :
    (e : Env) (rows : List MessageRow)
    → AllSendable e (map whole rows)
    → map read_message rows ≡ map whole rows
unfolding read_message
read_message-whole e [] h = refl
read_message-whole e (row ∷ rows) h = ground (
  arith,
  str_to_char-eq row.message h.0.0.text.no_nul,
  str_to_char-eq row.sender h.0.0.name.no_nul,
  read_message-whole e rows h.1,
)

all_delivered_lem :
    (e : Env) (fd : ℤ) (w : World)
    → AllSendable e (map whole (stored_for e fd w))
    → Begins e fd (map whole (stored_for e fd w)) w.out (all_delivered e fd w).out
      × (stored_for e fd (all_delivered e fd w) ≡ [])
unfolding find_user_by_fd
all_delivered_lem e fd w h =
    let msgs = map read_message (stored_for e fd w) in
    let same = SameState-deliver e fd (msgs ++ e.junk_messages) (fresh e nowork) w in
    (
      rw (read_message-whole e (stored_for e fd w) h) (
          deliver-Begins e fd (map whole (stored_for e fd w)) e.junk_messages (fresh e nowork) w h),
      rw (same.users, same.db)
          (select-delete (by_receiver e (find_user_by_fd e fd w).username) w.db.messages),
    )

-- If each message that is stored for the user of a connection has a text that is not empty, and text,
-- sender and time fit their fields, then handling them sends the client first just these messages, with
-- the texts, senders and times of the rows and in the order of the table, and afterwards none is left
-- for the user. What is sent behind these messages is left open: it hangs on what the memory holds behind
-- the array.
pub handle_offline_message_lem :
    (e : Env) (fd : ℤ) (w : World)
    → AllSendable e (map whole (stored_for e fd w))
    → Begins e fd (map whole (stored_for e fd w)) w.out (handle_offline_message e fd w).out
      × (stored_for e fd (handle_offline_message e fd w) ≡ [])
handle_offline_message_lem e fd w h =
    rw (handle_offline_message-cases e fd w) (elim (Bool-cases (length (stored_for e fd w) == 0)) [
      | inl q ↦
          let nothing = empty_if_no_row (stored_for e fd w) q in
          rw q (rw nothing (([], refl), refl))
      | inr q ↦ rw q (all_delivered_lem e fd w h)
    ])

-- Where the map of users and the tables agree and the database takes the text and the time, a message to
-- a user who is offline ends in the table of messages, behind those that are there, under the names
-- of both users, with the text and the time that the package carries once it is signed; nothing is
-- sent and nothing else changes.
pub send_to_user-offline :
    (n : ℕ) (e : Env) (pk : Package) (u r : User) (x y : ℤ) (w : World)
    → IsReflexive e
    → n ≤ e.size_u
    → IsSynced n w
    → find user_key u.username w.users ≡ some (u, x)
    → find user_key u.state.name w.users ≡ some (r, y)
    → is_neg y ≡ true
    → Savable e pk
    → let msg = mess_send e (set_sender e (str_to_char u.username) pk) in
      send_to_user e pk u w
      ≡ some (record w {
        db = record w.db {
          messages =
              w.db.messages
              ++ record {
                sender = u.username;
                receiver = u.state.name;
                message = msg.mess;
                time = e.stored_time msg.send_time;
              }
                ∷ [];
        };
      })
unfolding send_to_user
send_to_user-offline n e pk u r x y w b long s from to off fits =
    let msg = mess_send e (set_sender e (str_to_char u.username) pk) in
    let signed : msg.sender ≡ u.username =
      signed_sender n e pk u long (s.plain u.username (rw from)) in
    ground (
      arith,
      to,
      off,
      signed,
      save_message_lem e msg u.state.name w.db b
          (rw signed (row_of_name n w u.username s (rw from)))
          (row_of_name n w u.state.name s (rw to)) (fits u.username),
    )
