-- ===== src/Server/Sync/Users.antt =====
-- The ways in which the server changes a user, in the map and in the table.
use chat_service_socket_cpp.Common.{
  ℕ, ◌≡◌, refl, sym, ap, subst, ◌∙◌, Text, text_eq, text_eq_iff, List, [], ◌∷◌, Option, none, some,
  true, arith, is_some, All, Bool-cases, inl, inr,
}
use chat_service_socket_cpp.Common.Int.{ℤ, pos}
use chat_service_socket_cpp.Env.{Env, IsBinary}
use chat_service_socket_cpp.User.{User, user_key, set_state}
use chat_service_socket_cpp.StdMap.{find, insert, erase, assign}
use chat_service_socket_cpp.StdMap.Laws.{find-replace, find-assign, find-assign-none}
use chat_service_socket_cpp.Database.Sql.{
  Tables, UserRow, MessageRow, update, by_username, state_column, role_exists,
}
use chat_service_socket_cpp.Database.UsersDa.{read_state}
use chat_service_socket_cpp.Database.Rows.{
  find_row, map_row, find_row-update, IsPlain, read_state-room, read_state-user,
}
use chat_service_socket_cpp.Server.Sync.{SameUser, Agree, Refers, Synced, IsName}

-- An update of rows keeps the names that the messages refer to.
Refers-update :
    (e : Env) (u : Text) (f : UserRow → UserRow) (rows : List UserRow) (ms : List MessageRow)
    → IsBinary e
    → ((row : UserRow) → (f row).username ≡ row.username)
    → All (Refers rows) ms
    → All (Refers (update (by_username e u) f rows)) ms
Refers-update e u f rows [] b h a = tt
Refers-update e u f rows (m ∷ ms) b h a = (
  ground (
    arith,
    a.0,
    find_row-update e u m.sender f rows b h,
    find_row-update e u m.receiver f rows b h,
  ),
  Refers-update e u f rows ms b h a.1,
)

-- A user and its row change together.
module _ (e : Env) (b : IsBinary e) (f : UserRow → UserRow)
    (named : (row : UserRow) → (f row).username ≡ row.username) (u : User) (v : ℤ) where
  Agree-map_row :
      (u₀ : User) (v₀ : ℤ) (o : Option UserRow)
      → Agree (some (u₀, v₀)) o
      → ((row : UserRow) → SameUser u₀ row → SameUser u (f row))
      → Agree (some (u, v)) (map_row f o)
  Agree-map_row u₀ v₀ none a same = a
  Agree-map_row u₀ v₀ (some row) a same = same row a

  Agree-replace :
      (users : List (User × ℤ)) (rows : List UserRow) (u₀ : User) (v₀ : ℤ) (t : Text)
      → ((t : Text) → Agree (find user_key t users) (find_row t rows))
      → find user_key u.username users ≡ some (u₀, v₀)
      → ((row : UserRow) → SameUser u₀ row → SameUser u (f row))
      → Agree
          (find user_key t (insert user_key u v (erase user_key u.username users)))
          (find_row t (update (by_username e u.username) f rows))
  Agree-replace users rows u₀ v₀ t agree found same =
      rw (find-replace user_key u v t users, find_row-update e u.username t f rows b named)
        (elim (Bool-cases (text_eq u.username t)) [
          | inl h ↦ rw h (
              Agree-map_row u₀ v₀ (find_row t rows)
                (subst (λ o. Agree o (find_row t rows))
                  (ap (λ k. find user_key k users) (sym ((text_eq_iff u.username t).0 h)) ∙ found)
                  (agree t))
                same)
          | inr h ↦ rw h (agree t)
        ])

  pub Synced-replace :
      (n : ℕ) (users : List (User × ℤ)) (db : Tables) (u₀ : User) (v₀ : ℤ)
      → Synced n users db
      → find user_key u.username users ≡ some (u₀, v₀)
      → ((row : UserRow) → SameUser u₀ row → SameUser u (f row))
      → Synced n
          (insert user_key u v (erase user_key u.username users))
          (record db { users = update (by_username e u.username) f db.users })
  unfolding role_exists
  Synced-replace n users db u₀ v₀ s found same = record {
    agree = λ t. Agree-replace users db.users u₀ v₀ t s.agree found same;
    plain = λ t h.
        ground
          (arith, h, find-replace user_key u v t users, found, text_eq_iff u.username t, s.plain t);
    refer = Refers-update e u.username f db.users db.messages b named s.refer;
    admin = s.admin;
    user = s.user;
  }

-- The states of a user, as the procedures write them.
pub SameUser-clear :
    (u : User) (row : UserRow)
    → SameUser u row
    → SameUser (set_state (pos 0) [] u) (record row { state = none })
unfolding set_state read_state
SameUser-clear u row h = record { password = h.password; role = h.role; state = refl }

pub SameUser-room :
    (u : User) (row : UserRow) (x : Text)
    → SameUser u row
    → SameUser (set_state (pos 2) x u) (record row { state = state_column (pos 2) x })
unfolding set_state
SameUser-room u row x h = record {
  password = h.password;
  role = h.role;
  state = sym (read_state-room x);
}

pub SameUser-user :
    (u : User) (row : UserRow) (t : Text)
    → IsPlain t
    → SameUser u row
    → SameUser (set_state (pos 1) t u) (record row { state = state_column (pos 1) t })
unfolding set_state
SameUser-user u row t p h = record {
  password = h.password;
  role = h.role;
  state = sym (read_state-user t p);
}

-- A change of the connection only.
pub Synced-assign :
    (n : ℕ) (users : List (User × ℤ)) (db : Tables) (t : Text) (fd : ℤ)
    → Synced n users db
    → Synced n (assign user_key t fd users) db
Synced-assign n users db t fd s = record {
  agree = λ k. go k (find user_key k users) refl;
  plain = λ k h. plain k (find user_key k users) refl h;
  refer = s.refer;
  admin = s.admin;
  user = s.user;
}
  where
    go :
        (k : Text) (o : Option (User × ℤ))
        → find user_key k users ≡ o
        → Agree (find user_key k (assign user_key t fd users)) (find_row k db.users)
    go k none q =
        rw (find-assign-none user_key t k fd users q)
          (subst (λ o. Agree o (find_row k db.users)) q (s.agree k))
    go k (some (u, v)) q =
        rw (find-assign user_key t k fd users u v q)
          (ground (arith, subst (λ o. Agree o (find_row k db.users)) q (s.agree k)))

    plain :
        (k : Text) (o : Option (User × ℤ))
        → find user_key k users ≡ o
        → is_some (find user_key k (assign user_key t fd users)) ≡ true
        → IsName n k
    plain k none q h = ground (arith, find-assign-none user_key t k fd users q)
    plain k (some (u, v)) q h = s.plain k (ground (arith, q))
