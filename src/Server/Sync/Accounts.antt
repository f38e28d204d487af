-- ===== src/Server/Sync/Accounts.antt =====
-- Accounts that come and go: a user and the row of the same name, `AddUser`, `DeleteUser` and
-- `handleModifyUser`.
use chat_service_socket_cpp.Common.{
  ℕ, ◌-◌, ◌≡◌, ◌<◌, true, false, refl, ap, sym, ◌∙◌, arith, is_some, All, List, [], ◌∷◌, ◌++◌,
  Option, some, none, Option-cases, Bool-cases, inl, inr, Text, txt, text_eq, text_eq_iff, length,
  if◌then◌else◌,
}
use chat_service_socket_cpp.Common.Int.{ℤ, pos, negsuc}
use chat_service_socket_cpp.Env.{Env, IsBinary}
use chat_service_socket_cpp.Memory.{NoNul}
use chat_service_socket_cpp.Memory.Laws.{cstr-NoNul}
use chat_service_socket_cpp.Package.{Package, size_message, u_name, p_word, get_role}
use chat_service_socket_cpp.User.{User, user_key, named_user, set_role, set_password, set_username}
use chat_service_socket_cpp.StdMap.{find, insert, erase}
use chat_service_socket_cpp.StdMap.Laws.{find-key, find-insert, find-erase}
use chat_service_socket_cpp.Database.Access
use chat_service_socket_cpp.Database.Sql.{
  user_exists, Tables, UserRow, MessageRow, exists, update, delete, by_username,
  by_sender_or_receiver, role_exists,
}
use chat_service_socket_cpp.Database.UsersDa.{begins_with}
use chat_service_socket_cpp.Database.Rows.{
  find_row, user_exists-find_row, find_row-append, find_row-delete,
}
use chat_service_socket_cpp.Server.State.{World, getfd_username}
use chat_service_socket_cpp.Server.Users.{add_user, delete_user, handle_modify_user, admitted_role}
use chat_service_socket_cpp.Server.Sync.{Synced, IsSynced, IsName, Returns, Refers, Agree, SameUser}
use chat_service_socket_cpp.Server.Sync.Keep.{no_row_of_name, SameUser-new}
use chat_service_socket_cpp.Server.Sync.Users.{Synced-replace}

-- The row that INSERT adds.
abbrev pub new_row : User → UserRow
new_row u = record { username = u.username; password = u.password; state = none; role = u.role }

Refers-append :
    (rows : List UserRow) (r : UserRow) (ms : List MessageRow)
    → All (Refers rows) ms
    → All (Refers (rows ++ r ∷ [])) ms
Refers-append rows r [] a = tt
Refers-append rows r (m ∷ ms) a = (
  ground (arith, a.0, find_row-append m.sender rows r, find_row-append m.receiver rows r),
  Refers-append rows r ms a.1,
)

Refers-delete :
    (e : Env) (t : Text) (rows : List UserRow) (ms : List MessageRow)
    → IsBinary e
    → exists (by_sender_or_receiver e t) ms ≡ false
    → All (Refers rows) ms
    → All (Refers (delete (by_username e t) rows)) ms
unfolding exists
Refers-delete e t rows [] b h a = tt
Refers-delete e t rows (m ∷ ms) b h a = (
  ground (
    arith,
    h,
    a.0,
    find_row-delete e t m.sender rows b,
    find_row-delete e t m.receiver rows b,
    b.exact m.sender t,
    b.exact m.receiver t,
    text_eq_iff m.sender t,
    text_eq_iff t m.sender,
    text_eq_iff m.receiver t,
    text_eq_iff t m.receiver,
  ),
  Refers-delete e t rows ms b (ground (arith, h)) a.1,
)

-- A user that neither knows is added to both.
pub Synced-new :
    (n : ℕ) (users : List (User × ℤ)) (db : Tables) (u : User) (v : ℤ)
    → Synced n users db
    → find_row u.username db.users ≡ none
    → find user_key u.username users ≡ none
    → IsName n u.username
    → u.state ≡ record { type = pos 0; name = [] }
    → Synced n (insert user_key u v users) (record db { users = db.users ++ new_row u ∷ [] })
unfolding role_exists
Synced-new n users db u v s no_row no_user name empty = record {
  agree = agree;
  plain = λ t h. ground (
    arith,
    h,
    find-insert user_key u v t users no_user,
    text_eq_iff u.username t,
    s.plain t,
    name,
  );
  refer = Refers-append db.users (new_row u) db.messages s.refer;
  admin = s.admin;
  user = s.user;
}
  where
    keep :
        (o : Option (User × ℤ)) (r : Option UserRow)
        → Agree o r
        → Agree o (if is_some r then r else none)
    keep o none a = a
    keep o (some row) a = a

    no_row_at : (t : Text) → text_eq u.username t ≡ true → find_row t db.users ≡ none
    no_row_at t h = ap (λ k. find_row k db.users) (sym ((text_eq_iff u.username t).0 h)) ∙ no_row

    agree :
        (t : Text)
        → Agree
            (find user_key t (insert user_key u v users))
            (find_row t (db.users ++ new_row u ∷ []))
    agree t =
        rw (find-insert user_key u v t users no_user, find_row-append t db.users (new_row u))
          (elim (Bool-cases (text_eq u.username t)) [
            | inl h ↦ rw (h, no_row_at t h) (SameUser-new u empty)
            | inr h ↦ rw h (keep (find user_key t users) (find_row t db.users) (s.agree t))
          ])

-- A user that no message mentions goes from both.
pub Synced-erase :
    (n : ℕ) (e : Env) (users : List (User × ℤ)) (db : Tables) (t : Text)
    → IsBinary e
    → Synced n users db
    → exists (by_sender_or_receiver e t) db.messages ≡ false
    → Synced n (erase user_key t users) (record db { users = delete (by_username e t) db.users })
unfolding role_exists
Synced-erase n e users db t b s unused = record {
  agree = λ k.
      rw (find-erase user_key t k users, find_row-delete e t k db.users b)
        (elim (Bool-cases (text_eq t k)) [ inl h ↦ rw h tt | inr h ↦ rw h (s.agree k) ]);
  plain = λ k h. ground (arith, h, find-erase user_key t k users, s.plain k);
  refer = Refers-delete e t db.users db.messages b unused s.refer;
  admin = s.admin;
  user = s.user;
}

-- The roles that the server gives are in the table of roles.
pub role_exists-admitted_role :
    (n : ℕ) (users : List (User × ℤ)) (db : Tables) (r : ℤ)
    → Synced n users db
    → role_exists (admitted_role r) db ≡ true
unfolding admitted_role
role_exists-admitted_role n users db r s = ground (arith, s.admin, s.user)

-- With a name that the database does not find and a known role, INSERT succeeds.
pub insert_user-taken :
    (e : Env) (u : User) (db : Tables)
    → user_exists e u.username db ≡ false
    → role_exists u.role db ≡ true
    → Access.insert_user e u db ≡ some (record db { users = db.users ++ new_row u ∷ [] })
unfolding Access.insert_user
insert_user-taken e u db h k = ground (arith, h)

pub insert_user_lem :
    (e : Env) (u : User) (db : Tables)
    → IsBinary e
    → find_row u.username db.users ≡ none
    → role_exists u.role db ≡ true
    → Access.insert_user e u db ≡ some (record db { users = db.users ++ new_row u ∷ [] })
unfolding Access.insert_user
insert_user_lem e u db b h k =
    insert_user-taken e u db
      (unfold user_exists in user_exists-find_row e u.username db.users b ∙ rw h refl) k

modify_user_lem :
    (e : Env) (u : User) (db : Tables)
    → role_exists u.role db ≡ true
    → Access.modify_user_db e u db
      ≡ some (record db {
        users =
            update
              (by_username e u.username)
              (λ row. record row { password = u.password; role = u.role })
              db.users;
      })
unfolding Access.modify_user_db
modify_user_lem e u db k = ground arith

SameUser-modified :
    (u : User) (row : UserRow) (p : Text) (r : ℤ)
    → SameUser u row
    → SameUser (set_role r (set_password p u)) (record row { password = p; role = r })
unfolding set_role set_password
SameUser-modified u row p r same = record { password = refl; role = refl; state = same.state }

pub u_name-NoNul : (e : Env) (pk : Package) → NoNul (u_name e pk)
unfolding u_name
u_name-NoNul e pk = cstr-NoNul (size_message e - 0) 0 pk.message

u_name-IsName :
    (n : ℕ) (e : Env) (pk : Package)
    → begins_with (txt "ROOM ") (u_name e pk) ≡ false
    → length (u_name e pk) < n
    → text_eq (u_name e pk) [] ≡ false
    → IsName n (u_name e pk)
u_name-IsName n e pk no_room short full = record {
  plain = record {
    not_empty = ground (arith, full, text_eq_iff (u_name e pk) []);
    no_room = no_room;
  };
  fits = record { no_nul = u_name-NoNul e pk; short = short };
}

-- The world of a step: the tables compare names exactly.
module _ (n : ℕ) (e : Env) (b : IsBinary e) where
  pub add_user-IsSynced :
      (fd : ℤ) (pk : Package) (w : World)
      → begins_with (txt "ROOM ") (u_name e pk) ≡ false
      → length (u_name e pk) < n
      → IsSynced n w
      → Returns (IsSynced n) (add_user e fd pk w)
  unfolding add_user named_user set_role
  add_user-IsSynced fd pk w no_room short s =
      elim (Option-cases (find user_key (u_name e pk) w.users)) [
        | inr (x, q) ↦ ground (arith, q, s)
        | inl q ↦
            let us =
              set_role (admitted_role (get_role e pk)) (named_user (u_name e pk) (p_word e pk)) in
            let no_row = no_row_of_name n w (u_name e pk) s q in
            elim (Bool-cases (text_eq (u_name e pk) [])) [
              | inl empty ↦ ground (arith, q, s, empty)
              | inr full ↦ ground (
                arith,
                q,
                s,
                full,
                insert_user_lem e us w.db b no_row
                    (role_exists-admitted_role n w.users w.db (get_role e pk) s),
                Synced-new n w.users w.db us (negsuc 0) s no_row q
                    (u_name-IsName n e pk no_room short full) refl,
              )
            ]
      ]

  pub delete_user-IsSynced :
      (fd : ℤ) (pk : Package) (w : World)
      → IsSynced n w
      → Returns (IsSynced n) (delete_user e fd pk w)
  unfolding delete_user Access.delete_user_db Access.have_offline_message set_username
  delete_user-IsSynced fd pk w s = elim (Option-cases (find user_key (u_name e pk) w.users)) [
    | inl q ↦ ground (arith, q, s)
    | inr ((u, x), q) ↦ ground (
      arith,
      q,
      s,
      find-key user_key (u_name e pk) w.users u x q,
      Synced-erase n e w.users w.db (u_name e pk) b s,
    )
  ]

  pub handle_modify_user-IsSynced :
      (fd : ℤ) (pk : Package) (w : World)
      → IsSynced n w
      → Returns (IsSynced n) (handle_modify_user e fd pk w)
  unfolding handle_modify_user set_role set_password
  handle_modify_user-IsSynced fd pk w s =
      elim (Option-cases (find user_key (u_name e pk) w.users)) [
        | inl q ↦ ground (arith, q, s)
        | inr ((u, x), q) ↦
            let modified =
              set_role (admitted_role (get_role e pk)) (set_password (p_word e pk) u) in
            let row = λ (row : UserRow). record row {
              password = modified.password;
              role = modified.role;
            } in
            let key : u.username ≡ u_name e pk = find-key user_key (u_name e pk) w.users u x q in
            ground (
              arith,
              q,
              s,
              modify_user_lem e modified w.db
                  (role_exists-admitted_role n w.users w.db (get_role e pk) s),
              Synced-replace e b row (λ row. refl) modified (getfd_username (u_name e pk) w) n
                  w.users w.db u x s (ap (λ t. find user_key t w.users) key ∙ q)
                  (λ row same.
                    SameUser-modified u row (p_word e pk) (admitted_role (get_role e pk)) same),
            )
      ]
