-- ===== src/Tests/Events.antt =====
-- Messages and connections of the small server.
use chat_service_socket_cpp.Common.{
  ℕ, refl, ◌≡◌, ◌≤◌, ◌<◌, ◌==◌, ltb, arith, true, false, [], ◌∷◌, Text, txt, text_eq, text_lt,
  if◌then◌else◌, map,
}
use chat_service_socket_cpp.Common.Int.{ℤ, pos, negsuc}
use chat_service_socket_cpp.Memory.{str_to_char, strcpy, cstr, poke}
use chat_service_socket_cpp.Package.{
  EType, Package, fresh, set_up, set_rev, user_rev, set_mess, mess_send, set_sender, field,
  size_message, align,
}
use chat_service_socket_cpp.User.{User, set_state}
use chat_service_socket_cpp.StdMap.{find, first, insert, erase}
use chat_service_socket_cpp.Database.MessagesDa.{read_message}
use chat_service_socket_cpp.Database.Sql.{select}
use chat_service_socket_cpp.Server.State.{World, find_user_by_fd, sent_text, write, replace_user}
use chat_service_socket_cpp.Server.Chat.{send_to_user, with_function, connect_with}
use chat_service_socket_cpp.Server.Offline.{handle_offline_message}
use chat_service_socket_cpp.Server.Poll.{Server, Ready, got, event_server, poll_size}
use chat_service_socket_cpp.Server.Slots.{event_server-free, event_server-full}
use chat_service_socket_cpp.Server.Delivery.{
  whole, Begins, stored_for, Receives, handle_offline_message_lem,
}
use chat_service_socket_cpp.Server.Sync.{IsSynced}
use chat_service_socket_cpp.Server.Sync.Sessions.{with_function-IsSynced}
use chat_service_socket_cpp.Database.Sql.{MessageRow}
use chat_service_socket_cpp.Database.Access.{update_state}
use chat_service_socket_cpp.Server.Undelivered.{handle_offline_message-empty}
use chat_service_socket_cpp.Server.StoreForward.{restored, carried, offline-delivered}
use chat_service_socket_cpp.Server.Sync.{Returns}
use chat_service_socket_cpp.Server.Login.{login, login_package}
use chat_service_socket_cpp.Server.State.{sent}
use chat_service_socket_cpp.Package.{u_name, p_word, p_word_at}
use chat_service_socket_cpp.Tests.{
  env-IsReflexive, env, env-IsBinary, ann, bob, hi, ann_user, bob_user, tables, world,
  world-IsSynced, world-IsSorted,
}

-- A package with a name and the password "hi".
abbrev about : Text → EType → Package
about name t = set_up env name hi (fresh env t)

-- "ann" turned to "bob", who is not there.
abbrev turned : World
turned = with_function env (pos 4) (set_rev env bob (fresh env EType.withh)) world

turned-IsSynced : IsSynced 8 turned
turned-IsSynced =
    with_function-IsSynced 8 env env-IsBinary (pos 4) (set_rev env bob (fresh env EType.withh))
      world world-IsSorted world-IsSynced

abbrev ann_turned : User
ann_turned = record ann_user { state = record { type = pos 1; name = bob } }

abbrev kept_message : World
kept_message = record world {
  db = record tables {
    messages = record { sender = bob; receiver = ann; message = hi; time = 7 } ∷ [];
  };
}

handle_offline_message_lem_example :
    Begins env
      (pos 4)
      (map whole (stored_for env (pos 4) kept_message))
      kept_message.out
      (handle_offline_message env (pos 4) kept_message).out
    × (stored_for env (pos 4) (handle_offline_message env (pos 4) kept_message) ≡ [])
unfolding find_user_by_fd first select text_eq read_message str_to_char
handle_offline_message_lem_example = handle_offline_message_lem env (pos 4) kept_message (
  (
    record {
      text = record { no_nul = ground arith; short = omega arith };
      name = record { no_nul = ground arith; short = omega arith };
      time = refl;
    },
    refl,
  ),
  tt,
)

-- A client connects, and logs in as "ann".
abbrev connecting : Ready
connecting = record {
  revents = λ i. true;
  nready = 2;
  connfd = pos 4;
  reads = λ i. got (about ann EType.loginn);
}

-- A server with one client, and one without a free entry.
abbrev serving : (ℕ → ℤ) → Server
serving fds = record { world = world; fds = fds; events = λ i. false; maxi = 1 }

event_server-free_example :
    let s = serving (λ i. if ltb i 2 then pos 3 else negsuc 0) in
    ((event_server connecting s).fds 2 ≡ (if 2 == 2 then connecting.connfd else s.fds 2))
    × (2 ≤ (event_server connecting s).maxi)
    × ((event_server connecting s).maxi < poll_size)
    × ((event_server connecting s).world ≡ s.world)
event_server-free_example =
    event_server-free connecting (serving (λ i. if ltb i 2 then pos 3 else negsuc 0)) 2 2 refl
      (omega arith) (omega arith) refl (λ j p q. ground (arith, p, q)) (omega arith)

event_server-full_example :
    let s = serving (λ i. pos 3) in
    ((event_server connecting s).events poll_size ≡ true)
    × (poll_size ≤ (event_server connecting s).maxi)
    × ((event_server connecting s).fds ≡ s.fds)
    × ((event_server connecting s).world.out
        ≡ sent_text connecting.connfd (txt "too many client") ∷ s.world.out)
event_server-full_example = event_server-full connecting (serving (λ i. pos 3)) refl (λ j p q. refl)

-- "ann" is with "bob", who leaves.
abbrev together : World
together = record world {
  users =
      (record ann_user { state = record { type = pos 1; name = bob } }, pos 4)
      ∷ (bob_user, pos 5)
      ∷ [];
}

-- Behind a message for "ann" an empty one is stored, and another.
abbrev from_bob : Text → MessageRow
from_bob t = record { sender = bob; receiver = ann; message = t; time = 7 }

abbrev with_empty : World
with_empty = record world {
  db = record tables { messages = from_bob hi ∷ from_bob [] ∷ from_bob bob ∷ [] };
}

handle_offline_message-empty_example :
    Receives env
      (pos 4)
      (map read_message (from_bob hi ∷ []))
      with_empty.out
      (handle_offline_message env (pos 4) with_empty).out
    × (stored_for env (pos 4) (handle_offline_message env (pos 4) with_empty) ≡ [])
unfolding find_user_by_fd first select text_eq read_message str_to_char
handle_offline_message-empty_example =
    handle_offline_message-empty env (pos 4) with_empty (from_bob hi ∷ []) (from_bob bob ∷ [])
      (from_bob []) refl
      (
        (
          record {
            text = record { no_nul = ground arith; short = omega arith };
            name = record { no_nul = ground arith; short = omega arith };
            time = refl;
          },
          refl,
        ),
        tt,
      )
      refl

-- "ann" writes "hi" to "bob", who then logs in on the connection 6.
abbrev hi_package : Package
hi_package = set_mess env hi (fresh env EType.send_mess)

offline-delivered_example :
    Returns
      (λ v.
        let after = login env (pos 6) (about bob EType.loginn) v in
        Begins env
          (pos 6)
          (restored env ann_turned (carried env ann_turned hi_package) ∷ [])
          (sent (pos 6) (login_package env bob_user) ∷ v.out)
          after.out
        × (stored_for env (pos 6) after ≡ []))
      (send_to_user env hi_package ann_turned turned)
unfolding with_function connect_with user_rev set_rev field cstr strcpy poke size_message align
    fresh replace_user write insert erase set_state find text_eq text_lt first select update_state
    mess_send set_sender set_mess str_to_char u_name p_word p_word_at set_up
offline-delivered_example =
    offline-delivered 8 env hi_package (about bob EType.loginn) ann_turned bob_user (pos 4)
      (negsuc 0) (pos 6) turned env-IsReflexive (omega arith) turned-IsSynced refl refl refl refl
      refl refl (λ t. refl) (record { no_nul = ground arith; short = omega arith }) refl refl refl
      refl
