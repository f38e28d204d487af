-- ===== src/Room.antt =====
-- server/models/Room.h and Room.cpp. A `Room` is copied by value with its pointer `fdRoomMembers`;
-- the server stores each changed copy back over the original, so the array belongs to the room.
pub mod Members
pub mod Laws
use chat_service_socket_cpp.Common.{
  ℕ, zero, suc, ◌+◌, ◌-◌, ◌*◌, ◌/◌, Bool, true, false, Text, [], ◌∷◌, List, length, ltb, ◌==◌,
  if◌then◌else◌,
}
use chat_service_socket_cpp.Common.Int.{ℤ, pos, negsuc, int_eq}
use chat_service_socket_cpp.Memory.{Memory, cstr}
use chat_service_socket_cpp.Env.{Env}

abbrev pub room_id_size : ℕ
room_id_size = 20

-- `fd_room_members` is the array with what lies behind it, and `room_id` the 20 bytes with what lies
-- behind them.
pub record Room : Type 0 where
  pub capacity : ℕ
  pub available_users : ℕ
  pub fd_room_members : ℕ → ℤ
  pub room_id : Memory

-- `a[i] = x`
unfoldable pub store : ℕ → ℤ → (ℕ → ℤ) → ℕ → ℤ
store i x a j = if j == i then x else a j

-- `for (i = 0; i < n; i++) if (a[i] == fd)`, from the index `i` on with `k` rounds left: the index
-- at which the loop stops, or `i + k` if it runs out.
unfoldable pub search_fd : ℤ → (ℕ → ℤ) → ℕ → ℕ → ℕ
search_fd fd a zero i = i
search_fd fd a (suc k) i =
    let rest = search_fd fd a k (i + 1) in if int_eq (a i) fd then i else rest

-- `for (j = i; j < n; j++) a[j] = a[j+1]`, with `k` rounds left.
unfoldable pub shift_down : ℕ → ℕ → (ℕ → ℤ) → ℕ → ℤ
unfolding store
shift_down zero j a = a
shift_down (suc k) j a = shift_down k (j + 1) (store j (a (j + 1)) a)

-- `int Room::add(int fdUser)`: the new number of users, -1 for a member, -2 for a full room.
unfoldable pub add : ℤ → Room → ℤ × Room
unfolding search_fd store
add fd r =
    if ltb r.available_users r.capacity
    then if ltb (search_fd fd r.fd_room_members r.available_users 0) r.available_users
      then (negsuc 0, r)
      else (
        pos (r.available_users + 1),
        record r {
          fd_room_members = store r.available_users fd r.fd_room_members;
          available_users = r.available_users + 1;
        },
      )
    else (negsuc 1, r)

unfoldable pub remove_user : ℤ → Room → Room
unfolding search_fd shift_down
remove_user fd r =
    let i = search_fd fd r.fd_room_members r.available_users 0 in
    if ltb i r.available_users
    then record r {
      fd_room_members = shift_down (r.available_users - i) i r.fd_room_members;
      available_users = r.available_users - 1;
    }
    else r

-- `for (i = 0; i < strlen(id); i++) roomID[i] = id[i]`: no NUL is written.
unfoldable pub copy_id : ℕ → Text → Memory → Memory
copy_id o [] m = m
copy_id o (c ∷ t) m = λ b. if b == o then c else copy_id (o + 1) t m b

-- `memset(roomID, '\0', roomIDSize)`
unfoldable pub wipe : Memory → Memory
wipe m b = if ltb b room_id_size then 0 else m b

unfoldable pub set_room_id : Text → Room → Room
unfolding copy_id wipe
set_room_id id r = record r { room_id = copy_id 0 id (wipe r.room_id) }

-- `for (i = 0; i < n; i++) b[i] = a[i]`
unfoldable pub copy_fds : ℕ → (ℕ → ℤ) → (ℕ → ℤ) → ℕ → ℤ
copy_fds n a b i = if ltb i n then a i else b i

unfoldable pub set_capacity : Env → ℤ → Room → Room
unfolding copy_fds
set_capacity e (negsuc n) r = r
set_capacity e (pos n) r = if ltb n r.available_users then r else record r {
  fd_room_members = copy_fds r.available_users r.fd_room_members e.junk_fds;
  capacity = n;
}

unfoldable pub set_room : Env → Text → ℤ → Room → Room
unfolding set_room_id set_capacity
set_room e id c r = set_capacity e c (set_room_id id r)

-- The `n` ints of an array from the index `i` on.
unfoldable pub read_fds : ℕ → ℕ → (ℕ → ℤ) → List ℤ
read_fds zero i a = []
read_fds (suc n) i a = a i ∷ read_fds n (i + 1) a

-- `listClients()`, with the `getOnlUser()` entries that callers read.
unfoldable pub list_clients : Room → List ℤ
unfolding read_fds
list_clients r = read_fds r.available_users 0 r.fd_room_members

-- `getRoomID()`, read as a C string: to the first NUL of the 20 bytes.
unfoldable pub get_room_id : Room → Text
unfolding cstr
get_room_id r = cstr room_id_size 0 r.room_id

unfoldable pub find : ℤ → Room → Bool
unfolding search_fd
find fd r = ltb (search_fd fd r.fd_room_members r.available_users 0) r.available_users

-- `Room()`
unfoldable pub new_room : Env → Room
new_room e = record {
  capacity = 0;
  available_users = 0;
  fd_room_members = e.junk_fds;
  room_id = e.junk_room_id;
}

-- `new int[capacity]` unless the capacity is negative.
unfoldable pub valid_capacity : ℤ → ℕ
valid_capacity (pos n) = n
valid_capacity (negsuc n) = 0

-- `Room(RoomID, Capacity)`: the bytes behind the id are not set.
unfoldable pub make_room : Env → Text → ℤ → Room
unfolding copy_id valid_capacity
make_room e id c = record {
  capacity = valid_capacity c;
  available_users = 0;
  fd_room_members = e.junk_fds;
  room_id = copy_id 0 id e.junk_room_id;
}
