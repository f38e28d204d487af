-- ===== src/Tests/Halls.antt =====
-- The rooms of the small server: "bob" with nobody in it, and "hi" with "ann".
use chat_service_socket_cpp.Common.{
  ℕ, zero, suc, ◌≡◌, refl, arith, [], ◌∷◌, some, Text, text_eq, text_lt, ◌&&◌, if◌then◌else◌,
}
use chat_service_socket_cpp.Common.Int.{pos, int_eq}
use chat_service_socket_cpp.Memory.{strcpy, cstr, poke}
use chat_service_socket_cpp.Package.{
  EType, Package, fresh, set_room, room_name, field, size_message, align,
}
use chat_service_socket_cpp.User.{User, user_key}
use chat_service_socket_cpp.Room.{Room, search_fd, find as holds}
use chat_service_socket_cpp.StdMap.{find, first, insert}
use chat_service_socket_cpp.Database.Sql.{RoomRow}
use chat_service_socket_cpp.Database.RoomsDa.{room_key, map_room}
use chat_service_socket_cpp.Database.RoomRows.{find_room}
use chat_service_socket_cpp.Server.State.{World}
use chat_service_socket_cpp.Server.Rooms.{join_room}
use chat_service_socket_cpp.Server.Poll.{disconnect}
use chat_service_socket_cpp.Server.RoomSync.{InStep}
use chat_service_socket_cpp.Server.RoomSync.Rooms.{new_room_agrees}
use chat_service_socket_cpp.Server.RoomSync.Restart.{seen, emptied, find-map_room}
use chat_service_socket_cpp.Server.RoomSync.Leaving.{
  LeftIf, disconnect-LeftIf, disconnect-join_room,
}
use chat_service_socket_cpp.User.{set_state}
use chat_service_socket_cpp.Room.{add, list_clients}
use chat_service_socket_cpp.Common.{◌++◌}
use chat_service_socket_cpp.Server.State.{sent}
use chat_service_socket_cpp.Server.Dispatch.{analyze_package}
use chat_service_socket_cpp.Client.State.{Client, command, ask, read_at, say_line, say}
use chat_service_socket_cpp.Client.Loop.{top}
use chat_service_socket_cpp.Client.Main.{run, step, start, new_client, line, proceed, received}
use chat_service_socket_cpp.Client.Exchange.Join.{
  join_line, join_request, welcome, IsIn, join_request_lem,
}
use chat_service_socket_cpp.Client.State.{chat_room}
use chat_service_socket_cpp.Client.Package.{package_of, set_mess}
use chat_service_socket_cpp.Client.Color.{change_color, detectmess, option_of, has_opt, byte_at}
use chat_service_socket_cpp.Client.Text.{contains, drop_last, starts_with}
use chat_service_socket_cpp.Client.Exchange.RoomChat.{inbox, room_chat-delivered}
use chat_service_socket_cpp.Server.Invariant.{IsValid}
use chat_service_socket_cpp.Server.Frame.{SameState}
use chat_service_socket_cpp.Server.Sync.{Returns}
use chat_service_socket_cpp.Server.Chat.{chat_sender}
use chat_service_socket_cpp.Server.State.{checkfd, check_admin, find_user_by_fd}
use chat_service_socket_cpp.Server.Rooms.{add_room}
use chat_service_socket_cpp.Server.RoomSync.Unterminated.{add_room-lost}
use chat_service_socket_cpp.Env.{Env, IsBinary}
use chat_service_socket_cpp.Room.{read_fds}
use chat_service_socket_cpp.StdMap.{last}
use chat_service_socket_cpp.Memory.{str_to_char, write_word, read_word, int_of_word}
use chat_service_socket_cpp.Package.{
  set_sender, mess_send, set_room_m, room_capacity, behind_name_at,
}
use chat_service_socket_cpp.Common.{true, none, txt, is_some, ◌==◌}
use chat_service_socket_cpp.Room.Members.{contains as member}
use chat_service_socket_cpp.Tests.{cy, ann-IsName, bob-IsName, env, ann, bob, hi, ann_user, world}

-- The bytes of an id.
abbrev bytes : Text → ℕ → ℕ
bytes [] i = 0
bytes (c ∷ t) zero = c
bytes (c ∷ t) (suc i) = bytes t i

abbrev room_bob : Room
room_bob = record {
  capacity = 2;
  available_users = 0;
  fd_room_members = λ i. pos 0;
  room_id = bytes bob;
}

abbrev room_hi : Room
room_hi = record {
  capacity = 3;
  available_users = 1;
  fd_room_members = λ i. pos 4;
  room_id = bytes hi;
}

abbrev row_of : Text → Room → RoomRow
row_of t r = record { room_id = t; capacity = pos r.capacity }

abbrev one_room : World
one_room = record world {
  rooms = (bob, room_bob) ∷ [];
  db = record world.db { rooms = row_of bob room_bob ∷ [] };
}

-- Who is in "hi" has it as the state.
abbrev ann_inside : User
ann_inside = record ann_user { state = record { type = pos 2; name = hi } }

abbrev hall : World
hall = record one_room {
  users = (ann_inside, pos 4) ∷ [];
  rooms = (bob, room_bob) ∷ (hi, room_hi) ∷ [];
  db = record world.db { rooms = row_of bob room_bob ∷ row_of hi room_hi ∷ [] };
}

world-InStep : InStep world
unfolding find find_room
world-InStep = record { agree = λ t. tt; rows_fit = tt }

one_room-InStep : InStep one_room
unfolding find insert
one_room-InStep =
    new_room_agrees world bob room_bob world-InStep
      (record { stored = ground arith; short = omega arith }) (ground arith) refl

hall-InStep : InStep hall
unfolding find insert text_eq text_lt
hall-InStep =
    new_room_agrees one_room hi room_hi one_room-InStep
      (record { stored = ground arith; short = omega arith }) (ground arith) refl

find-map_room_example :
    seen (find room_key hi (map_room env hall.db [])) ≡ emptied (find room_key hi hall.rooms)
find-map_room_example = find-map_room env hall hi hall-InStep

disconnect-LeftIf_example :
    LeftIf
      (int_eq ann_inside.state.type (pos 2) && text_eq ann_inside.state.name hi)
      (pos 4)
      (find room_key hi hall.rooms)
      (find room_key hi (disconnect env (pos 4) hall).rooms)
unfolding first
disconnect-LeftIf_example =
    disconnect-LeftIf env (pos 4) hall ann_inside (pos 4) hi hall-InStep refl

-- "ann" asks for the room "bob".
abbrev to_bob : Package
to_bob = set_room env bob (fresh env EType.joinn)

disconnect-join_room_example :
    (find room_key hi (join_room env (pos 4) to_bob hall).rooms ≡ some (hi, room_hi))
    × (find room_key hi (disconnect env (pos 4) (join_room env (pos 4) to_bob hall)).rooms
        ≡ some (hi, room_hi))
unfolding first find holds search_fd text_eq room_name field set_room cstr strcpy poke size_message
    align
disconnect-join_room_example =
    disconnect-join_room env (pos 4) to_bob hall ann_inside (pos 4) hi hi bob room_hi room_bob
      (tt, tt) hall-InStep refl refl refl refl refl refl refl

-- "ann", who is logged in at a client, enters the empty room "bob".
abbrev visitor : Client
visitor = record (start env) { prompt = command }

join_request_lem_example :
    let p = join_request bob visitor in
    let after = join_room env (pos 4) p one_room in
    ((step env (line (join_line bob)) visitor).sent ≡ p ∷ visitor.sent)
    × (analyze_package env (pos 4) p one_room ≡ some after)
    × (after.out ≡ sent (pos 4) (welcome env bob) ∷ one_room.out)
    × (list_clients (add (pos 4) room_bob).1 ≡ list_clients room_bob ++ pos 4 ∷ [])
    × (find room_key bob after.rooms ≡ (
        if text_eq bob bob
        then some (bob, (add (pos 4) room_bob).1)
        else find room_key bob one_room.rooms))
    × (find user_key ann after.users ≡ (
        if text_eq ann_user.username ann
        then some (set_state (pos 2) bob ann_user, pos 4)
        else find user_key ann one_room.users))
    × IsIn bob (
        run env
          (line (join_line bob) ∷ proceed ∷ proceed ∷ received (welcome env bob) ∷ proceed ∷ [])
          visitor)
unfolding start new_client top ask read_at say_line say find first holds search_fd text_eq
join_request_lem_example =
    join_request_lem env bob visitor (pos 4) one_room ann_user (pos 4) bob room_bob bob ann
      bob-IsName.fits refl refl refl refl refl refl refl refl refl

-- "ann" writes "hi" in her room.
abbrev speaker : Client
speaker = record (start env) { prompt = chat_room; flag_j = true; roomw = hi }

hall-IsValid : IsValid hall
unfolding text_lt list_clients read_fds member
hall-IsValid = record {
  users_sorted = (tt, tt);
  rooms_sorted = ((refl, tt), (tt, tt));
  rooms_valid = (
    record { within = omega arith; distinct = tt },
    (record { within = omega arith; distinct = ground arith }, tt),
  );
}

abbrev hi_line : Text
hi_line = 104 ∷ 105 ∷ 10 ∷ []

room_chat-delivered_example :
    let p = set_mess env hi (package_of env EType.send_mess) in
    let signed = set_sender env ann p in
    ((run env (line hi_line ∷ []) speaker).sent ≡ p ∷ speaker.sent)
    × Returns
        (λ v.
          SameState v hall
          × (inbox (pos 4) v.out ≡ (
              if holds (pos 4) room_hi
              then signed ∷ inbox (pos 4) hall.out
              else inbox (pos 4) hall.out)))
        (analyze_package env (pos 4) p hall)
    × (signed.type ≡ EType.send_mess)
    × (mess_send env signed ≡ record { mess = hi; sender = ann; send_time = 77 })
unfolding detectmess option_of has_opt byte_at change_color drop_last str_to_char contains
    starts_with chat_sender find last checkfd first text_eq txt start new_client top ask read_at
    say_line say
room_chat-delivered_example =
    room_chat-delivered env hi_line speaker (pos 4) hall hi room_hi (pos 4) refl refl refl refl refl
      (record { no_nul = ground arith; short = omega arith }) hall-IsValid refl refl ann-IsName.fits
      (ground arith) refl (omega arith)

-- An environment in which a 7 stands behind the id of a fresh room.
abbrev dirty : Env
dirty = record env { junk_room_id = λ i. if i == 2 then 7 else 0 }

dirty-IsBinary : IsBinary dirty
dirty-IsBinary = record { exact = λ s t. refl }

-- "ann" creates the room "cy".
abbrev new_cy : Package
new_cy = set_room_m dirty cy (pos 3) (fresh dirty EType.create_room)

add_room-lost_example :
    Returns
      (λ v.
        (is_some (find room_key (room_name dirty new_cy) v.rooms) ≡ true)
        × (find room_key (room_name dirty new_cy) (map_room env v.db []) ≡ none)
        × (is_some (find room_key (room_name dirty new_cy ++ 7 ∷ []) (map_room env v.db []))
            ≡ true))
      (add_room dirty (pos 4) new_cy hall)
unfolding check_admin find_user_by_fd first text_eq find room_name room_capacity field set_room_m
    cstr strcpy poke write_word read_word int_of_word size_message align behind_name_at
add_room-lost_example =
    add_room-lost dirty env (pos 4) new_cy hall 7 dirty-IsBinary hall-InStep refl refl refl
      (omega arith) refl (omega arith) refl refl refl
