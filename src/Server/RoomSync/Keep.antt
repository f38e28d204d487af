-- ===== src/Server/RoomSync/Keep.antt =====
-- Changes of one room or of one row.
use chat_service_socket_cpp.Common.{
  ◌≡◌, refl, subst, Text, text_eq, text_eq_iff, List, Option, none, some, arith, All, Bool-cases,
  inl, inr, if◌then◌else◌,
}
use chat_service_socket_cpp.Room.{Room}
use chat_service_socket_cpp.StdMap.{find}
use chat_service_socket_cpp.Database.Sql.{RoomRow}
use chat_service_socket_cpp.Database.RoomsDa.{room_key}
use chat_service_socket_cpp.Database.RoomRows.{find_room, IsRoomRow}
use chat_service_socket_cpp.Server.State.{World}
use chat_service_socket_cpp.Server.RoomSync.{SameRoom, AgreeRoom, RoomsAgree, InStep}

-- The rooms and their table are as they were.
pub record SameRooms (v w : World) : Type 0 where
  pub rooms : v.rooms ≡ w.rooms
  pub rows : v.db.rooms ≡ w.db.rooms

pub SameRooms-InStep : (v w : World) → SameRooms v w → InStep w → InStep v
SameRooms-InStep v w k s = rw (k.rooms, k.rows) s

-- A room of the map has its row.
pub row_of_room :
    (w : World) (t : Text) (k : Text) (r : Room)
    → InStep w
    → find room_key t w.rooms ≡ some (k, r)
    → (row : RoomRow) × (find_room t w.db.rooms ≡ some row) × SameRoom t r row
row_of_room w t k r s h =
    go (find_room t w.db.rooms) refl
      (subst (λ o. AgreeRoom t o (find_room t w.db.rooms)) h (s.agree t))
  where
    go :
        (o : Option RoomRow)
        → find_room t w.db.rooms ≡ o
        → AgreeRoom t (some (k, r)) o
        → (row : RoomRow) × (find_room t w.db.rooms ≡ some row) × SameRoom t r row
    go none e a = absurd a
    go (some row) e a = (row, e, a)

pub no_row_of_room :
    (w : World) (t : Text)
    → InStep w
    → find room_key t w.rooms ≡ none
    → find_room t w.db.rooms ≡ none
no_row_of_room w t s h =
    go (find_room t w.db.rooms) (subst (λ o. AgreeRoom t o (find_room t w.db.rooms)) h (s.agree t))
  where
    go : (o : Option RoomRow) → AgreeRoom t none o → o ≡ none
    go none a = refl
    go (some row) a = absurd a

-- A room whose capacity and id stay agrees with the same row.
pub SameRoom-keep :
    (t : Text) (r r' : Room) (row : RoomRow)
    → r'.capacity ≡ r.capacity
    → r'.room_id ≡ r.room_id
    → SameRoom t r row
    → SameRoom t r' row
SameRoom-keep t r r' row c i s = record {
  named = record { stored = rw i s.named.stored; short = s.named.short };
  capacity = rw c s.capacity;
}

-- The entry of one id changes in the map, in agreement with what the table then has.
pub put_room :
    (x : Text) (o : Option (Text × Room)) (p : Option RoomRow) (rooms rooms' : List (Text × Room))
    (rows rows' : List RoomRow)
    → RoomsAgree rooms rows
    → ((t : Text) → find room_key t rooms' ≡ (if text_eq x t then o else find room_key t rooms))
    → ((t : Text) → find_room t rows' ≡ (if text_eq x t then p else find_room t rows))
    → AgreeRoom x o p
    → All IsRoomRow rows'
    → RoomsAgree rooms' rows'
put_room x o p rooms rooms' rows rows' s f g a fits = record {
  agree = λ t.
      rw (f t, g t)
        (elim (Bool-cases (text_eq x t)) [
          | inl h ↦ rw h (subst (λ k. AgreeRoom k o p) ((text_eq_iff x t).0 h) a)
          | inr h ↦ rw h (s.agree t)
        ]);
  rows_fit = fits;
}

same_row :
    (x t : Text) (rows : List RoomRow) (row : RoomRow)
    → find_room x rows ≡ some row
    → find_room t rows ≡ (if text_eq x t then some row else find_room t rows)
same_row x t rows row h = ground (arith, h, text_eq_iff x t)

-- A room of the map changes, and neither its capacity nor its id.
pub put_same_room :
    (w : World) (x k : Text) (r r' : Room) (rooms' : List (Text × Room))
    → InStep w
    → find room_key x w.rooms ≡ some (k, r)
    → ((t : Text)
        → find room_key t rooms' ≡ (if text_eq x t then some (k, r') else find room_key t w.rooms))
    → r'.capacity ≡ r.capacity
    → r'.room_id ≡ r.room_id
    → RoomsAgree rooms' w.db.rooms
put_same_room w x k r r' rooms' s h f c i =
    let (row, found, same) = row_of_room w x k r s h in
    put_room x (some (k, r')) (some row) w.rooms rooms' w.db.rooms w.db.rooms s f
      (λ t. same_row x t w.db.rooms row found) (SameRoom-keep x r r' row c i same) s.rows_fit
