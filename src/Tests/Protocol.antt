-- ===== src/Tests/Protocol.antt =====
-- The theorems on packages, rooms and state columns, at concrete inputs.
use chat_service_socket_cpp.Common.{
  refl, ◌≡◌, ◌+◌, arith, [], ◌∷◌, ◌++◌, Text, true, false, ◌⊎◌, ◌-◌, if◌then◌else◌, ltb,
}
use chat_service_socket_cpp.Common.Int.{pos, negsuc}
use chat_service_socket_cpp.Message.{MessageSend}
use chat_service_socket_cpp.Package.{Package, loginn, u_name, p_word, set_up}
use chat_service_socket_cpp.Package.Fields.{FitsIn, u_name-set_up_full}
use chat_service_socket_cpp.Room.{Room, read_fds, list_clients, find, add, remove_user}
use chat_service_socket_cpp.Room.Members.{remove, contains}
use chat_service_socket_cpp.Room.Laws.{IsValid, add_lem, remove_user_lem}
use chat_service_socket_cpp.Tests.{env, ann, bob, cy, hi}

abbrev blank : Package
blank = record { type = loginn; message = λ b. 1 }

name_fits : FitsIn 8 cy
name_fits = record { no_nul = ground arith; short = omega arith }

abbrev note : MessageSend
note = record { mess = hi; sender = ann; send_time = 7 }

-- A name of eight bytes, where SIZE_U is 8.
abbrev long_name : Text
long_name = bob ++ bob ++ hi

u_name-set_up_full_example :
    (u_name env (set_up env long_name hi blank) ≡ long_name ++ hi)
    × (p_word env (set_up env long_name hi blank) ≡ hi)
u_name-set_up_full_example =
    u_name-set_up_full env long_name hi blank (ground arith) refl
      (record { no_nul = ground arith; short = omega arith })

-- A room for three with the clients 4 and 5.
abbrev room : Room
room = record {
  capacity = 3;
  available_users = 2;
  fd_room_members = λ i. pos (4 + i);
  room_id = λ b. 0;
}

room-IsValid : IsValid room
unfolding list_clients read_fds contains
room-IsValid = record { within = omega arith; distinct = (refl, (refl, tt)) }

add_lem_example :
    (ltb room.available_users room.capacity ≡ false) × (add (pos 6) room ≡ (negsuc 1, room))
    ⊎ (find (pos 6) room ≡ true) × (add (pos 6) room ≡ (negsuc 0, room))
    ⊎ (ltb room.available_users room.capacity ≡ true)
      × (find (pos 6) room ≡ false)
      × ((add (pos 6) room).0 ≡ pos (room.available_users + 1))
      × (list_clients (add (pos 6) room).1 ≡ list_clients room ++ pos 6 ∷ [])
      × ((add (pos 6) room).1.capacity ≡ room.capacity)
      × ((add (pos 6) room).1.available_users ≡ room.available_users + 1)
      × ((add (pos 6) room).1.room_id ≡ room.room_id)
add_lem_example = add_lem (pos 6) room

remove_user_lem_example :
    (list_clients (remove_user (pos 4) room)
      ≡ (if find (pos 4) room then remove (pos 4) (list_clients room) else list_clients room))
    × ((remove_user (pos 4) room).capacity ≡ room.capacity)
    × ((remove_user (pos 4) room).room_id ≡ room.room_id)
    × ((remove_user (pos 4) room).available_users
        ≡ (if find (pos 4) room then room.available_users - 1 else room.available_users))
remove_user_lem_example = remove_user_lem (pos 4) room
