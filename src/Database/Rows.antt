-- ===== src/Database/Rows.antt =====
-- The table of users as a map from names, and what each statement does to it.
use chat_service_socket_cpp.Common.{
  ◌≡◌, ◌≢◌, refl, Text, txt, text_eq, text_eq_iff, List, [], ◌∷◌, ◌++◌, Option, none, some, Bool,
  true, false, arith, if◌then◌else◌, is_some, All, Bool-cases, inl, inr,
}
use chat_service_socket_cpp.Common.Int.{pos}
use chat_service_socket_cpp.Env.{Env, IsBinary}
use chat_service_socket_cpp.Database.Sql.{
  UserRow, exists, select, update, delete, by_username, state_column,
}
use chat_service_socket_cpp.Database.UsersDa.{begins_with, substr, read_state}

-- The first row of a name.
unfoldable pub find_row : Text → List UserRow → Option UserRow
find_row t [] = none
find_row t (row ∷ rows) = if text_eq row.username t then some row else find_row t rows

abbrev pub map_row : (UserRow → UserRow) → Option UserRow → Option UserRow
map_row f none = none
map_row f (some row) = some (f row)

-- The tests that the proofs carry along: a result that is there.
pub user_exists-find_row :
    (e : Env) (t : Text) (rows : List UserRow)
    → IsBinary e
    → exists (by_username e t) rows ≡ is_some (find_row t rows)
unfolding exists find_row
user_exists-find_row e t [] b = refl
user_exists-find_row e t (row ∷ rows) b =
    ground (arith, user_exists-find_row e t rows b, b.exact row.username t)

pub find_row-update :
    (e : Env) (u t : Text) (f : UserRow → UserRow) (rows : List UserRow)
    → IsBinary e
    → ((row : UserRow) → (f row).username ≡ row.username)
    → find_row t (update (by_username e u) f rows)
      ≡ (if text_eq u t then map_row f (find_row t rows) else find_row t rows)
unfolding update find_row
find_row-update e u t f [] b h = ground arith
find_row-update e u t f (row ∷ rows) b h = ground (
  arith,
  find_row-update e u t f rows b h,
  b.exact row.username u,
  h row,
  text_eq_iff row.username u,
  text_eq_iff row.username t,
  text_eq_iff u t,
)

pub find_row-delete :
    (e : Env) (u t : Text) (rows : List UserRow)
    → IsBinary e
    → find_row t (delete (by_username e u) rows) ≡ (if text_eq u t then none else find_row t rows)
unfolding select find_row
find_row-delete e u t [] b = ground arith
find_row-delete e u t (row ∷ rows) b = ground (
  arith,
  find_row-delete e u t rows b,
  b.exact row.username u,
  text_eq_iff row.username u,
  text_eq_iff row.username t,
  text_eq_iff u t,
)

pub find_row-append :
    (t : Text) (rows : List UserRow) (r : UserRow)
    → find_row t (rows ++ r ∷ []) ≡ (
        if is_some (find_row t rows)
        then find_row t rows
        else if text_eq r.username t
        then some r
        else none)
unfolding find_row
find_row-append t [] r = ground arith
find_row-append t (row ∷ rows) r = ground (arith, find_row-append t rows r)

-- A name that a state column can hold beside the rooms: neither empty nor like "ROOM ...".
pub record IsPlain (t : Text) : Type 0 where
  pub not_empty : t ≢ []
  pub no_room : begins_with (txt "ROOM ") t ≡ false

-- What SetState writes for a user in a room is read back.
pub read_state-room :
    (x : Text) → read_state (state_column (pos 2) x) ≡ record { type = pos 2; name = x }
unfolding read_state state_column
read_state-room x = refl

-- And for a user with another, whose name is plain.
pub read_state-user :
    (t : Text) → IsPlain t → read_state (state_column (pos 1) t) ≡ record { type = pos 1; name = t }
unfolding read_state state_column
read_state-user [] p = absurd (p.not_empty refl)
read_state-user (c ∷ t) p = rw p.no_room

-- The state of a user goes through the column `state` and back: none, with a user whose name is
-- neither empty nor begins with "ROOM ", and in a room of any name.
pub read_state-state_column :
    (t x : Text)
    → IsPlain t
    → (read_state (state_column (pos 0) x) ≡ record { type = pos 0; name = [] })
      × (read_state (state_column (pos 1) t) ≡ record { type = pos 1; name = t })
      × (read_state (state_column (pos 2) x) ≡ record { type = pos 2; name = x })
unfolding read_state state_column
read_state-state_column t x p = (refl, read_state-user t p, read_state-room x)

-- A user with another whose name begins with "ROOM " is read back as in the room of the rest of that
-- name.
pub read_state-other :
    (t : Text)
    → begins_with (txt "ROOM ") t ≡ true
    → read_state (state_column (pos 1) t) ≡ record { type = pos 2; name = substr 5 t }
unfolding read_state state_column begins_with
read_state-other [] h = ground arith
read_state-other (c ∷ t) h = rw h

-- Two updates of the same rows are one.
pub update-update :
    (e : Env) (u : Text) (f g : UserRow → UserRow) (rows : List UserRow)
    → ((row : UserRow) → (f row).username ≡ row.username)
    → update (by_username e u) g (update (by_username e u) f rows)
      ≡ update (by_username e u) (λ row. g (f row)) rows
unfolding update
update-update e u f g [] h = refl
update-update e u f g (row ∷ rows) h = ground (arith, update-update e u f g rows h, h row)

-- A condition on messages that a deletion keeps.
pub All-select {ℓ κ} :
    {A : Type ℓ} (P : A → Type κ) (p : A → Bool) (xs : List A) → All P xs → All P (select p xs)
unfolding select
All-select P p [] a = tt
All-select P p (x ∷ xs) a = elim (Bool-cases (p x)) [
  | inl h ↦ rw h (a.0, All-select P p xs a.1)
  | inr h ↦ rw h (All-select P p xs a.1)
]

pub All-append {ℓ κ} :
    {A : Type ℓ} (P : A → Type κ) (xs : List A) (y : A) → All P xs → P y → All P (xs ++ y ∷ [])
All-append P [] y a p = (p, tt)
All-append P (x ∷ xs) y a p = (a.0, All-append P xs y a.1 p)
