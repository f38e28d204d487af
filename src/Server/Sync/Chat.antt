-- ===== src/Server/Sync/Chat.antt =====
-- The map of users and the tables through `OneToOneChat`, `RoomChat` and `LeaveChatUser`.
use chat_service_socket_cpp.Common.{
  ℕ, ◌≡◌, ◌≤◌, refl, Text, [], ◌∷◌, ◌++◌, none, some, true, arith, is_some, Option-cases, inl, inr,
  List, ◌∙◌, ap, Bool-cases, text_eq, text_eq_iff,
}
use chat_service_socket_cpp.Common.Int.{ℤ}
use chat_service_socket_cpp.Env.{Env, IsBinary, IsReflexive}
use chat_service_socket_cpp.Memory.{str_to_char}
use chat_service_socket_cpp.Memory.Laws.{str_to_char-eq}
use chat_service_socket_cpp.Message.{MessageSend}
use chat_service_socket_cpp.Package.{Package, mess_send, set_sender}
use chat_service_socket_cpp.Package.Fields.{sender-set_sender}
use chat_service_socket_cpp.User.{User, user_key, new_user}
use chat_service_socket_cpp.Room.{list_clients}
use chat_service_socket_cpp.StdMap.{IsSorted, find, last}
use chat_service_socket_cpp.StdMap.Scan.{last-find}
use chat_service_socket_cpp.Database.Sql.{Tables, MessageRow, UserRow, exists, by_username}
use chat_service_socket_cpp.Database.Access
use chat_service_socket_cpp.Database.Rows.{find_row, All-append}
use chat_service_socket_cpp.Server.State.{World, write, find_user_by_fd, is_online_at}
use chat_service_socket_cpp.Server.Offline.{leave_room}
use chat_service_socket_cpp.Server.Frame.{leave_room_frame, SameState-write_all}
use chat_service_socket_cpp.Server.Chat.{
  one_to_one_chat, send_to_user, room_chat, chat_sender, leave_chat_user, room_or_new,
}
use chat_service_socket_cpp.Server.Sync.{Savable, Refers, IsSynced, IsName, Returns}
use chat_service_socket_cpp.Server.Sync.Keep.{Synced-messages, SameState-IsSynced, row_of_name}
use chat_service_socket_cpp.Server.Sync.Sessions.{empty_state-IsSynced}

-- A name in the table is found there by the database.
exists-find_row :
    (e : Env) (t : Text) (rows : List UserRow)
    → IsReflexive e
    → is_some (find_row t rows) ≡ true
    → exists (by_username e t) rows ≡ true
unfolding exists find_row
exists-find_row e t [] b h = ground (arith, h)
exists-find_row e t (row ∷ rows) b h = elim (Bool-cases (text_eq row.username t)) [
  | inl q ↦
      let same : e.sql_eq row.username t ≡ true =
        ap (λ x. e.sql_eq x t) ((text_eq_iff row.username t).0 q) ∙ b.same t in
      rw same refl
  | inr q ↦ ground (arith, exists-find_row e t rows b (rw q at h))
]

pub IsBinary-IsReflexive : (e : Env) → IsBinary e → IsReflexive e
IsBinary-IsReflexive e b = record { same = λ t. b.exact t t ∙ (text_eq_iff t t).1 refl }

-- A message between two users of the table is saved.
abbrev pub saved_row : Env → MessageSend → Text → MessageRow
saved_row e msg r = record {
  sender = msg.sender;
  receiver = r;
  message = msg.mess;
  time = e.stored_time msg.send_time;
}

pub save_message_lem :
    (e : Env) (msg : MessageSend) (r : Text) (db : Tables)
    → IsReflexive e
    → is_some (find_row msg.sender db.users) ≡ true
    → is_some (find_row r db.users) ≡ true
    → e.takes_message msg.mess msg.send_time ≡ true
    → Access.save_message e msg r db
      ≡ some (record db { messages = db.messages ++ saved_row e msg r ∷ [] })
unfolding Access.save_message
save_message_lem e msg r db b h k l =
    ground (arith, l, exists-find_row e msg.sender db.users b h, exists-find_row e r db.users b k)

-- The package of a user of the map is signed with the name.
pub signed_sender :
    (n : ℕ) (e : Env) (pk : Package) (u : User)
    → n ≤ e.size_u
    → IsName n u.username
    → (mess_send e (set_sender e (str_to_char u.username) pk)).sender ≡ u.username
unfolding mess_send
signed_sender n e pk u long p = rw (str_to_char-eq u.username p.fits.no_nul) (
    sender-set_sender e u.username pk
      (record { no_nul = p.fits.no_nul; short = omega (arith, p.fits.short, long) }))

-- The world of a step: the tables compare names exactly, and the buffers hold them.
module _ (n : ℕ) (e : Env) (b : IsBinary e) (long : n ≤ e.size_u) where
  pub send_to_user-IsSynced :
      (pk : Package) (u : User) (x : ℤ) (w : World)
      → Savable e pk
      → find user_key u.username w.users ≡ some (u, x)
      → IsSynced n w
      → Returns (IsSynced n) (send_to_user e pk u w)
  unfolding send_to_user write
  send_to_user-IsSynced pk u x w fits found s =
      elim (Option-cases (find user_key u.state.name w.users)) [
        | inl q ↦ rw (q, send_to_user) s
        | inr ((r, y), q) ↦
            let msg = mess_send e (set_sender e (str_to_char u.username) pk) in
            let from : msg.sender ≡ u.username =
              signed_sender n e pk u long (s.plain u.username (rw found)) in
            let has_sender : is_some (find_row msg.sender w.db.users) ≡ true =
              rw from (row_of_name n w u.username s (rw found)) in
            let has_receiver : is_some (find_row u.state.name w.db.users) ≡ true =
              row_of_name n w u.state.name s (rw q) in
            let kept =
              Synced-messages n w.users w.db (w.db.messages ++ saved_row e msg u.state.name ∷ []) s
                (All-append (Refers w.db.users) w.db.messages (saved_row e msg u.state.name) s.refer
                  (has_sender, has_receiver)) in
            ground (
              arith,
              q,
              s,
              kept,
              save_message_lem e msg u.state.name w.db (IsBinary-IsReflexive e b) has_sender
                  has_receiver (fits u.username),
            )
      ]

  -- No user has the empty name, so a sender that is not found sends nothing.
  send_to_nobody :
      (pk : Package) (w : World)
      → IsSynced n w
      → Returns (IsSynced n) (send_to_user e pk (new_user e) w)
  unfolding send_to_user new_user
  send_to_nobody pk w s = elim (Option-cases (find user_key [] w.users)) [
    | inl q ↦ rw (q, send_to_user) s
    | inr (x, q) ↦ absurd ((s.plain [] (rw q)).plain.not_empty refl)
  ]

  pub room_chat-IsSynced :
      (pk : Package) (u : User) (w : World) → IsSynced n w → IsSynced n (room_chat e pk u w)
  unfolding room_chat
  room_chat-IsSynced pk u w s =
      SameState-IsSynced n (room_chat e pk u w) w
        (SameState-write_all (list_clients (room_or_new e (str_to_char u.state.name) w))
          (set_sender e (str_to_char u.username) pk) w)
        s

  pub one_to_one_chat-IsSynced :
      (fd : ℤ) (pk : Package) (w : World)
      → Savable e pk
      → IsSorted user_key w.users
      → IsSynced n w
      → Returns (IsSynced n) (one_to_one_chat e fd pk w)
  unfolding one_to_one_chat chat_sender
  one_to_one_chat-IsSynced fd pk w a v s =
      elim (Option-cases (last user_key (is_online_at fd) w.users none)) [
        | inl q ↦
            ground (arith, q, s, send_to_nobody pk w s, room_chat-IsSynced pk (new_user e) w s)
        | inr ((u, x), q) ↦ elim (last-find user_key (is_online_at fd) w.users none u x v q) [
          | inl found ↦
              ground (
                arith,
                q,
                s,
                send_to_user-IsSynced pk u x w a found.0 s,
                room_chat-IsSynced pk u w s,
              )
          | inr nothing ↦ cc
        ]
      ]

  pub leave_chat_user-IsSynced :
      (fd : ℤ) (w : World)
      → IsSorted user_key w.users
      → IsSynced n w
      → IsSynced n (leave_chat_user e fd w)
  unfolding leave_chat_user
  leave_chat_user-IsSynced fd w v s =
      let u = find_user_by_fd e fd w in
      let left = leave_room e fd u w in
      let frame = leave_room_frame e fd u w in
      let s' : IsSynced n left = rw (frame.0, frame.1) s in
      let v' : IsSorted user_key left.users = rw frame.0 v in
      ground
        (arith, s, empty_state-IsSynced n e b fd w v s, empty_state-IsSynced n e b fd left v' s')
