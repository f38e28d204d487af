-- ===== src/Server/Poll.antt =====
-- The event loop: `Init`, `EventServer` and `Execute`. What the system calls give is an argument.
use chat_service_socket_cpp.Common.{
  ℕ, zero, suc, ◌+◌, ◌-◌, Bool, true, Option, none, some, List, [], ◌∷◌, txt, if◌then◌else◌, ◌==◌,
  leb, ltb,
}
use Prim.Native.Nat.{max}
use chat_service_socket_cpp.Common.Int.{ℤ, negsuc, is_neg}
use chat_service_socket_cpp.Env.{Env}
use chat_service_socket_cpp.Package.{Package, offlineuser}
use chat_service_socket_cpp.Database.Sql.{Tables}
use chat_service_socket_cpp.Database.UsersDa.{map_user}
use chat_service_socket_cpp.Database.RoomsDa.{map_room}
use chat_service_socket_cpp.Server.State.{World, sent_text, closed, checkfd}
use chat_service_socket_cpp.Server.Offline.{notification_offline, change_state_user_off}
use chat_service_socket_cpp.Server.Dispatch.{analyze_package}

abbrev pub poll_size : ℕ
poll_size = 35

-- `fds` and `events` are the fields of the array `client_fd`, with what lies behind its `poll_size`
-- elements; `maxi` is the largest index in use.
pub record Server : Type 0 where
  pub world : World
  pub fds : ℕ → ℤ
  pub events : ℕ → Bool
  pub maxi : ℕ

-- What `read` gives: an error with ECONNRESET, another error, no bytes, or a package.
pub data ReadResult : Type 0 where
  reset failed ended : ReadResult
  got : Package → ReadResult

-- What one `poll` and the calls after it give: which entries are ready, how many, the new connection
-- of `accept`, and what is read from each entry.
pub record Ready : Type 0 where
  pub revents : ℕ → Bool
  pub nready : ℕ
  pub connfd : ℤ
  pub reads : ℕ → ReadResult

-- `a[i] = x`
unfoldable pub set_at {ℓ} : {A : Type ℓ} → ℕ → A → (ℕ → A) → ℕ → A
set_at i x a j = if j == i then x else a j

-- `Init`, for a listening socket and the database: the entries of the array, and behind them what the
-- memory holds.
unfoldable pub init : Env → ℤ → Tables → Server
unfolding map_user map_room
init e listenfd db = record {
  world = record { users = map_user db []; rooms = map_room e db []; db = db; out = [] };
  fds = λ i. if i == 0 then listenfd else if ltb i poll_size then negsuc 0 else e.junk_fds i;
  events = λ i. i == 0;
  maxi = 0;
}

-- `for (i = 1; i < POLL_SIZE; i++) if (client_fd[i].fd < 0)`, with `k` rounds left.
unfoldable pub free_slot : (ℕ → ℤ) → ℕ → ℕ → ℕ
free_slot fds zero i = i
free_slot fds (suc k) i = let rest = free_slot fds k (i + 1) in if is_neg (fds i) then i else rest

-- `EventServer`, without the count of ready descriptors. With no free entry the index is
-- `poll_size`, and `events` is set there too.
unfoldable pub event_server : Ready → Server → Server
unfolding free_slot set_at txt
event_server r s =
    let i = free_slot s.fds (poll_size - 1) 1 in
    let taken =
      if i == poll_size
      then record s {
        world = record s.world { out = sent_text r.connfd (txt "too many client") ∷ s.world.out };
      }
      else record s { fds = set_at i r.connfd s.fds } in
    if r.revents 0
    then record taken { events = set_at i true taken.events; maxi = max i taken.maxi }
    else s

-- The end of a connection: the others are told, and the user is offline.
unfoldable pub disconnect : Env → ℤ → World → World
unfolding checkfd notification_offline change_state_user_off
disconnect e fd w =
    let off =
      if checkfd fd w
      then (change_state_user_off e fd (notification_offline e fd offlineuser w)).1
      else w in
    record off { out = closed fd ∷ off.out }

-- The body of the loop of `Execute` for the entry `i`, which is ready.
unfoldable pub handle_entry : Env → ℕ → ReadResult → Server → Option Server
unfolding disconnect analyze_package set_at
handle_entry e i reset s =
    some (record s { world = disconnect e (s.fds i) s.world; fds = set_at i (negsuc 0) s.fds })
handle_entry e i failed s = some s
handle_entry e i ended s =
    some (record s { world = disconnect e (s.fds i) s.world; fds = set_at i (negsuc 0) s.fds })
handle_entry e i (got pk) s = elim (analyze_package e (s.fds i) pk s.world) [
  | none ↦ none
  | some w ↦ some (record s { world = w })
]

-- The loop of `Execute` over the entries, from `i` on with `k` rounds left.
unfoldable pub handle_entries : Env → Ready → ℕ → ℕ → ℕ → Server → Option Server
unfolding handle_entry
handle_entries e r zero i nready s = some s
handle_entries e r (suc k) i nready s =
    let skip = handle_entries e r k (i + 1) nready s in
    let go : Option Server = elim (handle_entry e i (r.reads i) s) [
      | none ↦ none
      | some t ↦ if leb nready 1 then some t else handle_entries e r k (i + 1) (nready - 1) t
    ] in
    if is_neg (s.fds i) then skip else if r.revents i then go else skip

-- One round of `Execute`.
unfoldable pub execute_round : Env → Ready → Server → Option Server
unfolding event_server handle_entries
execute_round e r s =
    let t = event_server r s in
    handle_entries e r t.maxi 1 (if r.revents 0 then r.nready - 1 else r.nready) t

-- `Execute` for as many rounds as `poll` returns.
unfoldable pub execute : List (Env × Ready) → Server → Option Server
execute [] s = some s
execute ((e, r) ∷ rounds) s = elim (execute_round e r s) [ none ↦ none | some t ↦ execute rounds t ]
