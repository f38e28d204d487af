-- ===== src/Room/Laws.antt =====
-- The operations of a room against its list of members, and its well-formedness.
use chat_service_socket_cpp.Common.{
  ℕ, zero, suc, ◌+◌, ◌-◌, ◌≤◌, ◌<◌, ◌≡◌, refl, ◌⊎◌, true, false, [], ◌∷◌, ◌++◌, arith, length, ltb,
  if◌then◌else◌, Text,
}
use chat_service_socket_cpp.Common.Int.{ℤ, pos, negsuc}
use chat_service_socket_cpp.Memory.{Memory, NoNul, Stored}
use chat_service_socket_cpp.Memory.Laws.{cstr-Stored}
use chat_service_socket_cpp.Env.{Env}
use chat_service_socket_cpp.Room.Members.{
  contains, remove, IsDistinct, search_fd-contains, search_fd-ge, shift_down_lem, read_fds-ext,
  read_fds-store, read_fds-copy_fds, append-IsDistinct, remove-IsDistinct, remove-gone,
}
use chat_service_socket_cpp.Room.{
  Room, room_id_size, search_fd, shift_down, read_fds, list_clients, add, remove_user, find,
  set_capacity, set_room_id, get_room_id, make_room, copy_id, wipe, new_room,
}

pub record IsValid (r : Room) : Type 0 where
  pub within : r.available_users ≤ r.capacity
  pub distinct : IsDistinct (list_clients r)

-- `find` tells membership in the list of clients.
pub find-contains : (fd : ℤ) (r : Room) → find fd r ≡ contains fd (list_clients r)
unfolding find list_clients
find-contains fd r = ground (arith, search_fd-contains fd r.fd_room_members r.available_users 0)

-- `add` gives -2 for a full room and -1 for a client of a room that is not full, and changes nothing
-- then; else the client comes behind the others in the list, the result is their new number, and
-- capacity and id stay.
pub add_lem :
    (fd : ℤ) (r : Room)
    → (ltb r.available_users r.capacity ≡ false) × (add fd r ≡ (negsuc 1, r))
      ⊎ (find fd r ≡ true) × (add fd r ≡ (negsuc 0, r))
      ⊎ (ltb r.available_users r.capacity ≡ true)
        × (find fd r ≡ false)
        × ((add fd r).0 ≡ pos (r.available_users + 1))
        × (list_clients (add fd r).1 ≡ list_clients r ++ fd ∷ [])
        × ((add fd r).1.capacity ≡ r.capacity)
        × ((add fd r).1.available_users ≡ r.available_users + 1)
        × ((add fd r).1.room_id ≡ r.room_id)
unfolding add find list_clients
add_lem fd r = ground (arith, read_fds-store r.available_users 0 fd r.fd_room_members)

-- Shifting from the index `i` on drops the entry there.
read_fds-shift_here :
    (k i m : ℕ) (a : ℕ → ℤ) → k < m → read_fds k i (shift_down m i a) ≡ read_fds k (i + 1) a
read_fds-shift_here k i m a h =
    read_fds-ext k i 1 (shift_down m i a) a (λ b p q. ground (arith, shift_down_lem m i a b))

-- Shifting from where the search stops removes what it found.
read_fds-shift :
    (fd : ℤ) (a : ℕ → ℤ) (k i s m : ℕ)
    → s ≡ search_fd fd a (suc k) i
    → s < i + suc k
    → m ≡ i + suc k - s
    → read_fds k i (shift_down m s a) ≡ remove fd (read_fds (suc k) i a)
unfolding search_fd read_fds remove
read_fds-shift fd a zero i s m e h em = ground arith
read_fds-shift fd a (suc k) i s m e h em = ground (
  arith,
  read_fds-shift_here (suc k) i m a,
  read_fds-shift fd a k (i + 1) s m,
  shift_down_lem m s a i,
  search_fd-ge fd a (suc k) (i + 1),
)

-- `removeUser` is the removal of the first occurrence from the list of clients; the capacity and the
-- id stay, and the count falls exactly if the user was there.
pub remove_user_lem :
    (fd : ℤ) (r : Room)
    → (list_clients (remove_user fd r)
        ≡ (if find fd r then remove fd (list_clients r) else list_clients r))
      × ((remove_user fd r).capacity ≡ r.capacity)
      × ((remove_user fd r).room_id ≡ r.room_id)
      × ((remove_user fd r).available_users
          ≡ (if find fd r then r.available_users - 1 else r.available_users))
unfolding remove_user find list_clients
remove_user_lem fd r = go r.available_users refl
  where
    go :
        (n : ℕ)
        → r.available_users ≡ n
        → (list_clients (remove_user fd r)
            ≡ (if find fd r then remove fd (list_clients r) else list_clients r))
          × ((remove_user fd r).capacity ≡ r.capacity)
          × ((remove_user fd r).room_id ≡ r.room_id)
          × ((remove_user fd r).available_users
              ≡ (if find fd r then r.available_users - 1 else r.available_users))
    go zero e = ground (arith, search_fd-ge fd r.fd_room_members r.available_users 0)
    go (suc k) e = ground (
      arith,
      read_fds-shift fd r.fd_room_members k 0 (search_fd fd r.fd_room_members (suc k) 0)
          (suc k - search_fd fd r.fd_room_members (suc k) 0),
    )

pub remove_user-IsValid : (fd : ℤ) (r : Room) → IsValid r → IsValid (remove_user fd r)
remove_user-IsValid fd r v = record {
  within = ground (arith, remove_user_lem fd r);
  distinct = ground (arith, remove_user_lem fd r, remove-IsDistinct fd (list_clients r) v.distinct);
}

-- After `removeUser` on a room of distinct clients, not more than fit, the client is not found.
pub find-remove_user : (fd : ℤ) (r : Room) → IsValid r → find fd (remove_user fd r) ≡ false
find-remove_user fd r v = ground (
  arith,
  find-contains fd r,
  find-contains fd (remove_user fd r),
  remove_user_lem fd r,
  remove-gone fd (list_clients r) v.distinct,
)

pub add-IsValid : (fd : ℤ) (r : Room) → IsValid r → IsValid (add fd r).1
add-IsValid fd r v = record {
  within = ground (arith, add_lem fd r);
  distinct =
      ground
        (arith, add_lem fd r, find-contains fd r, append-IsDistinct (list_clients r) fd v.distinct);
}

-- `setCapacity` takes every capacity that has room for the present users, and no other, and changes
-- neither the clients nor the id.
pub set_capacity_lem :
    (e : Env) (c : ℤ) (r : Room)
    → (list_clients (set_capacity e c r) ≡ list_clients r)
      × ((set_capacity e c r).available_users ≡ r.available_users)
      × ((set_capacity e c r).room_id ≡ r.room_id)
unfolding set_capacity list_clients
set_capacity_lem e (negsuc n) r = ground arith
set_capacity_lem e (pos n) r =
    ground (arith, read_fds-copy_fds r.available_users r.fd_room_members e.junk_fds)

pub set_capacity-pos :
    (e : Env) (n : ℕ) (r : Room)
    → (set_capacity e (pos n) r).capacity ≡ (if ltb n r.available_users then r.capacity else n)
unfolding set_capacity
set_capacity-pos e n r = ground arith

pub set_capacity-IsValid : (e : Env) (c : ℤ) (r : Room) → IsValid r → IsValid (set_capacity e c r)
set_capacity-IsValid e (negsuc n) r v = unfold set_capacity in v
set_capacity-IsValid e (pos n) r v = record {
  within = ground (arith, set_capacity_lem e (pos n) r, set_capacity-pos e n r);
  distinct = ground (arith, set_capacity_lem e (pos n) r);
}

-- The id of a room is `t`, with its NUL within the 20 bytes.
pub record HasId (t : Text) (r : Room) : Type 0 where
  pub stored : Stored 0 t r.room_id
  pub short : length t < room_id_size

pub get_room_id-HasId : (t : Text) (r : Room) → HasId t r → get_room_id r ≡ t
unfolding get_room_id
get_room_id-HasId t r h = cstr-Stored room_id_size 0 t r.room_id h.stored h.short

copy_id-after : (o : ℕ) (t : Text) (m : Memory) (b : ℕ) → o + length t ≤ b → copy_id o t m b ≡ m b
unfolding copy_id
copy_id-after o [] m b h = refl
copy_id-after o (c ∷ t) m b h = ground (arith, copy_id-after (o + 1) t m b)

copy_id-before : (o : ℕ) (t : Text) (m : Memory) (b : ℕ) → b < o → copy_id o t m b ≡ m b
unfolding copy_id
copy_id-before o [] m b h = refl
copy_id-before o (c ∷ t) m b h = ground (arith, copy_id-before (o + 1) t m b)

pub Stored-ext :
    (o : ℕ) (t : Text) (m n : Memory) → ((b : ℕ) → o ≤ b → m b ≡ n b) → Stored o t m → Stored o t n
Stored-ext o [] m n h s = ground (arith, h o)
Stored-ext o (c ∷ t) m n h s =
    (ground (arith, h o), s.1, Stored-ext (o + 1) t m n (λ b p. h b (omega arith)) s.2)

-- The copied bytes are a C string only if a NUL lies behind them already.
pub Stored-copy_id :
    (o : ℕ) (t : Text) (m : Memory) → NoNul t → m (o + length t) ≡ 0 → Stored o t (copy_id o t m)
unfolding copy_id
Stored-copy_id o [] m h z = ground arith
Stored-copy_id o (c ∷ t) m h z = (
  ground arith,
  h.0,
  Stored-ext (o + 1) t (copy_id (o + 1) t m) (copy_id o (c ∷ t) m) (λ b p. ground arith)
      (Stored-copy_id (o + 1) t m h.1 (ground arith)),
)

-- `setRoomID` with an id of less than 20 bytes and no NUL stores the id with a NUL behind it, whatever
-- stood there.
pub set_room_id-HasId :
    (t : Text) (r : Room) → NoNul t → length t < room_id_size → HasId t (set_room_id t r)
unfolding set_room_id
set_room_id-HasId t r h s = record {
  stored = Stored-copy_id 0 t (wipe r.room_id) h (unfold wipe in ground arith);
  short = s;
}

-- The constructor does so only over a NUL that happens to be there.
pub make_room-HasId :
    (e : Env) (t : Text) (c : ℤ)
    → NoNul t
    → length t < room_id_size
    → e.junk_room_id (length t) ≡ 0
    → HasId t (make_room e t c)
unfolding make_room
make_room-HasId e t c h s z = record {
  stored = Stored-copy_id 0 t e.junk_room_id h (ground arith);
  short = s;
}

pub make_room-IsValid : (e : Env) (t : Text) (c : ℤ) → IsValid (make_room e t c)
unfolding make_room list_clients
make_room-IsValid e t c = record { within = omega arith; distinct = tt }

pub set_room_id-IsValid : (t : Text) (r : Room) → IsValid r → IsValid (set_room_id t r)
unfolding set_room_id list_clients
set_room_id-IsValid t r v = record { within = v.within; distinct = v.distinct }

pub new_room-IsValid : (e : Env) → IsValid (new_room e)
unfolding new_room list_clients
new_room-IsValid e = record { within = omega arith; distinct = tt }
