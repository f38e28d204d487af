-- ===== src/Database/RoomRows.antt =====
-- The table of rooms as a map from ids, and what each statement does to it.
use chat_service_socket_cpp.Common.{
  ℕ, ◌≡◌, ◌<◌, refl, subst, Text, text_eq, text_eq_iff, List, [], ◌∷◌, ◌++◌, Option, none, some,
  Bool, arith, if◌then◌else◌, is_some, All, Bool-cases, inl, inr, length,
}
use chat_service_socket_cpp.Common.Int.{pos}
use chat_service_socket_cpp.Memory.{NoNul}
use chat_service_socket_cpp.Env.{Env, IsBinary}
use chat_service_socket_cpp.Room.{room_id_size}
use chat_service_socket_cpp.Database.Sql.{RoomRow, exists, select, update, delete, by_room_id}

-- The first row of an id.
unfoldable pub find_room : Text → List RoomRow → Option RoomRow
find_room t [] = none
find_room t (row ∷ rows) = if text_eq row.room_id t then some row else find_room t rows

-- The row of a room that the buffers of a `Room` can hold.
pub record IsRoomRow (row : RoomRow) : Type 0 where
  pub no_nul : NoNul row.room_id
  pub short : length row.room_id < room_id_size
  pub places : ℕ
  pub capacity : row.capacity ≡ pos places

pub room_exists-find_room :
    (e : Env) (t : Text) (rows : List RoomRow)
    → IsBinary e
    → exists (by_room_id e t) rows ≡ is_some (find_room t rows)
unfolding exists find_room
room_exists-find_room e t [] b = refl
room_exists-find_room e t (row ∷ rows) b =
    ground (arith, room_exists-find_room e t rows b, b.exact row.room_id t)

pub find_room-key :
    (t : Text) (rows : List RoomRow) (row : RoomRow) → find_room t rows ≡ some row → row.room_id ≡ t
unfolding find_room
find_room-key t [] row h = ground arith
find_room-key t (r ∷ rows) row h = ground (arith, text_eq_iff r.room_id t, find_room-key t rows row)

abbrev pub map_row : (RoomRow → RoomRow) → Option RoomRow → Option RoomRow
map_row f none = none
map_row f (some row) = some (f row)

pub find_room-update :
    (e : Env) (u t : Text) (f : RoomRow → RoomRow) (rows : List RoomRow)
    → IsBinary e
    → ((row : RoomRow) → (f row).room_id ≡ row.room_id)
    → find_room t (update (by_room_id e u) f rows)
      ≡ (if text_eq u t then map_row f (find_room t rows) else find_room t rows)
unfolding update find_room
find_room-update e u t f [] b h = ground arith
find_room-update e u t f (row ∷ rows) b h = ground (
  arith,
  find_room-update e u t f rows b h,
  b.exact row.room_id u,
  h row,
  text_eq_iff row.room_id u,
  text_eq_iff row.room_id t,
  text_eq_iff u t,
)

pub find_room-delete :
    (e : Env) (u t : Text) (rows : List RoomRow)
    → IsBinary e
    → find_room t (delete (by_room_id e u) rows) ≡ (if text_eq u t then none else find_room t rows)
unfolding select find_room
find_room-delete e u t [] b = ground arith
find_room-delete e u t (row ∷ rows) b = ground (
  arith,
  find_room-delete e u t rows b,
  b.exact row.room_id u,
  text_eq_iff row.room_id u,
  text_eq_iff row.room_id t,
  text_eq_iff u t,
)

pub find_room-append :
    (t : Text) (rows : List RoomRow) (r : RoomRow)
    → find_room t (rows ++ r ∷ []) ≡ (
        if is_some (find_room t rows)
        then find_room t rows
        else if text_eq r.room_id t
        then some r
        else none)
unfolding find_room
find_room-append t [] r = ground arith
find_room-append t (row ∷ rows) r = ground (arith, find_room-append t rows r)

-- A condition on rows that an update keeps.
pub All-update {ℓ κ} :
    {A : Type ℓ} (P : A → Type κ) (p : A → Bool) (f : A → A) (xs : List A)
    → ((x : A) → P x → P (f x))
    → All P xs
    → All P (update p f xs)
unfolding update
All-update P p f [] k a = tt
All-update P p f (x ∷ xs) k a = elim (Bool-cases (p x)) [
  | inl h ↦ rw h (k x a.0, All-update P p f xs k a.1)
  | inr h ↦ rw h (a.0, All-update P p f xs k a.1)
]

pub All-find_room {κ} :
    (P : RoomRow → Type κ) (t : Text) (rows : List RoomRow) (row : RoomRow)
    → All P rows
    → find_room t rows ≡ some row
    → P row
unfolding find_room
All-find_room P t [] row a h = absurd (ground (arith, h))
All-find_room P t (r ∷ rows) row a h = elim (Bool-cases (text_eq r.room_id t)) [
  | inl e ↦ subst P (ground (arith, e, h)) a.0
  | inr e ↦ All-find_room P t rows row a.1 (rw e at h)
]
