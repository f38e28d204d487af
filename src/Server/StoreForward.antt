-- ===== src/Server/StoreForward.antt =====
-- A message on its way through the database, from `OneToOneChat` to `handleOfflineMessage`.
use chat_service_socket_cpp.Common.{
  ℕ, ◌≡◌, ◌≤◌, refl, subst, Bool, true, false, arith, List, [], ◌∷◌, ◌++◌, some, none, map, text_eq,
  Text, ap, ◌∙◌, sym, if◌then◌else◌, Bool-cases, inl, inr,
}
use chat_service_socket_cpp.Common.Int.{ℤ, pos, negsuc, is_neg, int_eq, int_eq_iff}
use chat_service_socket_cpp.Env.{Env, IsReflexive}
use chat_service_socket_cpp.Memory.{str_to_char}
use chat_service_socket_cpp.Memory.Words.{Fits}
use chat_service_socket_cpp.Message.{MessageSend}
use chat_service_socket_cpp.Package.{
  EType, Package, onlineuser, checkparty, fresh, set_type_with, mess_send, set_sender, u_name,
  p_word,
}
use chat_service_socket_cpp.Package.Fields.{FitsIn}
use chat_service_socket_cpp.User.{User, user_key}
use chat_service_socket_cpp.StdMap.{find, first, assign}
use chat_service_socket_cpp.StdMap.Laws.{find-key}
use chat_service_socket_cpp.Database.Sql.{MessageRow, select, by_receiver}
use chat_service_socket_cpp.Server.State.{World, Output, sent, write, find_user_by_fd}
use chat_service_socket_cpp.Server.Offline.{
  handle_offline_message, notification_offline, notify_parties, is_party,
}
use chat_service_socket_cpp.Server.Login.{login, login_package, login_accepted, rejoin}
use chat_service_socket_cpp.Server.Frame.{SameState-notification_offline}
use mathlib.Core.List.{append_assoc}
use chat_service_socket_cpp.Server.Chat.{send_to_user}
use chat_service_socket_cpp.Server.Sync.{IsSynced, Returns, Savable}
use chat_service_socket_cpp.Server.Delivery.{
  IsSendable, Begins, AllSendable, whole, stored_for, handle_offline_message_lem,
  send_to_user-offline,
}

-- A user who has no connection gets one that nobody has: a search by the connection finds that user.
first-assign :
    (m : List (User × ℤ)) (t : Text) (u : User) (v fd : ℤ)
    → find user_key t m ≡ some (u, v)
    → first user_key (λ x. int_eq x fd) m ≡ none
    → first user_key (λ x. int_eq x fd) (assign user_key t fd m) ≡ some (u, fd)
unfolding find first assign
first-assign [] t u v fd h n = ground arith
first-assign ((k, y) ∷ m) t u v fd h n =
    ground (arith, h, n, first-assign m t u v fd, int_eq_iff fd fd)

select-append {ℓ} :
    {A : Type ℓ} (p : A → Bool) (xs : List A) (y : A)
    → p y ≡ true
    → select p (xs ++ y ∷ []) ≡ select p xs ++ y ∷ []
unfolding select
select-append p [] y h = ground (arith, h)
select-append p (x ∷ xs) y h = ground (arith, select-append p xs y h)

-- The world in which the user `t` has come online with the connection `fd`.
abbrev pub arrived : Text → ℤ → World → World
arrived t fd w = record w { users = assign user_key t fd w.users }

arrived-user :
    (e : Env) (t : Text) (fd : ℤ) (w : World) (u : User) (v : ℤ)
    → find user_key t w.users ≡ some (u, v)
    → first user_key (λ x. int_eq x fd) w.users ≡ none
    → (find_user_by_fd e fd (arrived t fd w)).username ≡ t
unfolding find_user_by_fd
arrived-user e t fd w u v h n =
    ground (arith, first-assign w.users t u v fd h n, find-key user_key t w.users u v h)

-- One message in the table.
abbrev row_of : Env → User → MessageSend → MessageRow
row_of e u msg = record {
  sender = u.username;
  receiver = u.state.name;
  message = msg.mess;
  time = e.stored_time msg.send_time;
}

one_stored :
    (e : Env) (u : User) (msg : MessageSend) (fd : ℤ) (w : World) (r : User) (y : ℤ)
    → IsReflexive e
    → find user_key u.state.name w.users ≡ some (r, y)
    → first user_key (λ x. int_eq x fd) w.users ≡ none
    → select (by_receiver e u.state.name) w.db.messages ≡ []
    → stored_for e fd (
        arrived u.state.name fd
          (record w { db = record w.db { messages = w.db.messages ++ row_of e u msg ∷ [] } }))
      ≡ row_of e u msg ∷ []
one_stored e u msg fd w r y b h n none_yet =
    let t = u.state.name in
    let row = row_of e u msg in
    let after : World = record w { db = record w.db { messages = w.db.messages ++ row ∷ [] } } in
    rw (arrived-user e t fd after r y h n) (
      select-append (by_receiver e t) w.db.messages row (ground (arith, b.same t))
      ∙ ap (λ rs. rs ++ row ∷ []) none_yet)

-- The message of a package, signed.
abbrev pub carried : Env → User → Package → MessageSend
carried e u pk = mess_send e (set_sender e (str_to_char u.username) pk)

-- The message as it comes out of the table.
abbrev pub restored : Env → User → MessageSend → MessageSend
restored e u msg = record {
  mess = msg.mess;
  sender = u.username;
  send_time = e.stored_time msg.send_time;
}

-- Packages that are told to others come behind what was sent.
Begins-more :
    (e : Env) (fd : ℤ) (msgs : List MessageSend) (before mid more : List Output)
    → Begins e fd msgs before mid
    → Begins e fd msgs before (more ++ mid)
Begins-more e fd [] before mid more (rest, h) =
    (more ++ rest, ap (λ os. more ++ os) h ∙ sym (append_assoc more rest before))
Begins-more e fd (msg ∷ msgs) before mid more (p, t, m, h) =
    (p, t, m, Begins-more e fd msgs (sent fd p ∷ before) mid more h)

written_if :
    (b : Bool) (v : ℤ) (p : Package) (w : World)
    → (more : List Output) × ((if b then write v p w else w).out ≡ more ++ w.out)
unfolding write
written_if true v p w = (sent v p ∷ [], refl)
written_if false v p w = ([], refl)

notify_parties-out :
    (p : Package) (t : Text) (all : List (User × ℤ)) (w : World)
    → (more : List Output) × ((notify_parties p t all w).out ≡ more ++ w.out)
unfolding notify_parties
notify_parties-out p t [] w = ([], refl)
notify_parties-out p t ((u, v) ∷ all) w =
    let next : World = if is_party t (u, v) then write v p w else w in
    let (more, out) = notify_parties-out p t all next in
    let (here, told) = written_if (is_party t (u, v)) v p w in
    (more ++ here, out ∙ ap (λ os. more ++ os) told ∙ sym (append_assoc more here w.out))

notification_offline-out :
    (e : Env) (fd : ℤ) (t : EType) (w : World)
    → (more : List Output) × ((notification_offline e fd t w).out ≡ more ++ w.out)
unfolding notification_offline
notification_offline-out e fd t w =
    let usr = find_user_by_fd e fd w in
    elim (Bool-cases (text_eq usr.username [])) [
      | inl q ↦ rw q ([], refl)
      | inr q ↦
          rw q (notify_parties-out (set_type_with e t (fresh e checkparty)) usr.username w.users w)
    ]

-- An accepted login of a user who was in no room.
login-arrived :
    (e : Env) (fd : ℤ) (q : Package) (v : World) (t : Text) (r : User) (y : ℤ)
    → u_name e q ≡ t
    → text_eq (str_to_char r.password) (p_word e q) ≡ true
    → find user_key t v.users ≡ some (r, y)
    → is_neg y ≡ true
    → int_eq r.state.type (pos 2) ≡ false
    → login e fd q v
      ≡ notification_offline e fd onlineuser
          (handle_offline_message e fd (write fd (login_package e r) (arrived t fd v)))
unfolding login login_accepted rejoin
login-arrived e fd q v t r (pos n) name pass there off alone = absurd (ground (arith, off))
login-arrived e fd q v t r (negsuc n) name pass there off alone =
    let key : r.username ≡ t = find-key user_key t v.users r (negsuc n) there in
    ground (arith, name, pass, there, alone, key)

one_delivered :
    (e : Env) (fd : ℤ) (row : MessageRow) (w : World)
    → stored_for e fd w ≡ row ∷ []
    → IsSendable e (whole row)
    → text_eq row.message [] ≡ false
    → let after = notification_offline e fd onlineuser (handle_offline_message e fd w) in
      Begins e fd (whole row ∷ []) w.out after.out × (stored_for e fd after ≡ [])
unfolding find_user_by_fd
one_delivered e fd row w one h full =
    let all : AllSendable e (map whole (stored_for e fd w)) = rw one ((h, full), tt) in
    let done = handle_offline_message_lem e fd w all in
    let mid = handle_offline_message e fd w in
    let (more, out) = notification_offline-out e fd onlineuser mid in
    let same = SameState-notification_offline e fd onlineuser mid in
    let first_of : Begins e fd (whole row ∷ []) w.out mid.out =
      subst (λ rows. Begins e fd (map whole rows) w.out mid.out) one done.0 in
    (
      rw out (Begins-more e fd (whole row ∷ []) w.out mid.out more first_of),
      rw (same.users, same.db) done.1,
    )

-- A message to an absent user arrives when that user logs in. Let the map of users and the tables
-- agree, and a user write to another who is offline, whose state is not a room and for whom nothing is
-- stored, a message that the columns take, whose text fits its array and is not empty and whose time
-- fits 8 bytes once it has gone through the database. If the receiver then logs in with the right
-- password on a connection that nobody has, the server first sends on it the answer to the login and
-- then this message, with its text, the name of the sender and that time, and leaves none stored for
-- the user.
pub offline-delivered :
    (n : ℕ) (e : Env) (pk q : Package) (u r : User) (x y fd : ℤ) (w : World)
    → IsReflexive e
    → n ≤ e.size_u
    → IsSynced n w
    → find user_key u.username w.users ≡ some (u, x)
    → find user_key u.state.name w.users ≡ some (r, y)
    → is_neg y ≡ true
    → int_eq r.state.type (pos 2) ≡ false
    → select (by_receiver e u.state.name) w.db.messages ≡ []
    → first user_key (λ v. int_eq v fd) w.users ≡ none
    → Savable e pk
    → FitsIn e.size_mess (carried e u pk).mess
    → text_eq (carried e u pk).mess [] ≡ false
    → Fits 8 (e.stored_time (carried e u pk).send_time)
    → u_name e q ≡ u.state.name
    → text_eq (str_to_char r.password) (p_word e q) ≡ true
    → Returns
        (λ v.
          let after = login e fd q v in
          Begins e fd
            (restored e u (carried e u pk) ∷ [])
            (sent fd (login_package e r) ∷ v.out)
            after.out
          × (stored_for e fd after ≡ []))
        (send_to_user e pk u w)
unfolding write find_user_by_fd
offline-delivered n e pk q u r x y fd w b long s from to off alone none_yet free takes fm full ft
      name pass =
    let msg = carried e u pk in
    let row = row_of e u msg in
    let after : World = record w { db = record w.db { messages = w.db.messages ++ row ∷ [] } } in
    let t = u.state.name in
    let fits = (s.plain u.username (rw from refl)).fits in
    let stored = one_stored e u msg fd w r y b to free none_yet in
    let done =
      one_delivered e fd row (write fd (login_package e r) (arrived t fd after)) stored
        (record {
          text = fm;
          name = record { no_nul = fits.no_nul; short = omega (arith, fits.short, long) };
          time = ft;
        })
        full in
    rw (send_to_user-offline n e pk u r x y w b long s from to off takes)
      (rw (login-arrived e fd q after t r y name pass to off alone) done)
