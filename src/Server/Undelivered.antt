-- ===== src/Server/Undelivered.antt =====
-- Messages that `handleOfflineMessage` deletes without having sent them.
use chat_service_socket_cpp.Common.{
  ◌≡◌, refl, subst, true, false, arith, List, [], ◌∷◌, ◌++◌, map, length, text_eq, ◌==◌, ap, ◌∙◌,
}
use chat_service_socket_cpp.Common.Int.{ℤ}
use chat_service_socket_cpp.Env.{Env}
use chat_service_socket_cpp.Message.{MessageSend}
use chat_service_socket_cpp.Package.{nowork, fresh}
use chat_service_socket_cpp.Database.MessagesDa.{read_message}
use chat_service_socket_cpp.Database.Sql.{MessageRow, by_receiver}
use chat_service_socket_cpp.Server.State.{World, find_user_by_fd}
use chat_service_socket_cpp.Server.Offline.{handle_offline_message, deliver}
use chat_service_socket_cpp.Server.Frame.{SameState-deliver}
use chat_service_socket_cpp.Server.Delivery.{
  until_empty, Receives, AllSendable, stored_for, deliver_lem, handle_offline_message-cases,
  AllSendable-All, all_delivered, select-delete,
}

until_empty-stop :
    (e : Env) (before rest : List MessageSend) (m : MessageSend)
    → AllSendable e before
    → text_eq m.mess [] ≡ true
    → until_empty (before ++ m ∷ rest) ≡ before
until_empty-stop e [] rest m h k = ground (arith, k)
until_empty-stop e (x ∷ before) rest m h k =
    ground (arith, h.0.1, until_empty-stop e before rest m h.1 k)

read_rows :
    (before after : List MessageRow) (m : MessageRow) (junk : List MessageSend)
    → map read_message (before ++ m ∷ after) ++ junk
      ≡ map read_message before ++ read_message m ∷ (map read_message after ++ junk)
read_rows [] after m junk = refl
read_rows (x ∷ before) after m junk = ap (λ ms. read_message x ∷ ms) (read_rows before after m junk)

some_rows :
    (before after : List MessageRow) (m : MessageRow) → (length (before ++ m ∷ after) == 0) ≡ false
some_rows [] after m = ground arith
some_rows (x ∷ before) after m = ground arith

-- An empty message hides the later ones. If the messages stored for the user of a connection are some
-- that are not empty and fit their fields, then an empty one, and then others, handling them sends the
-- first and neither the empty one nor those behind it, and afterwards none is left in the table.
pub handle_offline_message-empty :
    (e : Env) (fd : ℤ) (w : World) (before after : List MessageRow) (m : MessageRow)
    → stored_for e fd w ≡ before ++ m ∷ after
    → AllSendable e (map read_message before)
    → text_eq (read_message m).mess [] ≡ true
    → Receives e fd (map read_message before) w.out (handle_offline_message e fd w).out
      × (stored_for e fd (handle_offline_message e fd w) ≡ [])
handle_offline_message-empty e fd w before after m stored h k =
    let junk = e.junk_messages in
    let read : map read_message (stored_for e fd w) ++ junk
        ≡ map read_message before ++ read_message m ∷ (map read_message after ++ junk) =
      ap (λ rows. map read_message rows ++ junk) stored ∙ read_rows before after m junk in
    let cut : until_empty (map read_message (stored_for e fd w) ++ junk) ≡ map read_message before =
      ap until_empty read
      ∙ until_empty-stop e (map read_message before) (map read_message after ++ junk)
          (read_message m) h k in
    let msgs = map read_message (stored_for e fd w) ++ junk in
    let none_left : (length (stored_for e fd w) == 0) ≡ false =
      ap (λ rows. length rows == 0) stored ∙ some_rows before after m in
    let whole : handle_offline_message e fd w ≡ all_delivered e fd w =
      handle_offline_message-cases e fd w ∙ rw none_left refl in
    let same = SameState-deliver e fd msgs (fresh e nowork) w in
    let sent =
      deliver_lem e fd msgs (fresh e nowork) w
        (rw cut (AllSendable-All e (map read_message before) h)) in
    rw whole (
      subst (λ ms. Receives e fd ms w.out (deliver e fd msgs (fresh e nowork) w).out) cut sent,
      unfold find_user_by_fd in
          rw (same.users, same.db)
            (select-delete (by_receiver e (find_user_by_fd e fd w).username) w.db.messages),
    )
