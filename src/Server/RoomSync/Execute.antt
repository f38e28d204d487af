-- ===== src/Server/RoomSync/Execute.antt =====
-- Whole runs of `Execute`, from `Init` on the tables of the database to a restart from them.
use chat_service_socket_cpp.Common.{ℕ, ◌≡◌, Option, some, none, Text}
use chat_service_socket_cpp.Common.Int.{ℤ}
use chat_service_socket_cpp.Env.{Env}
use chat_service_socket_cpp.Package.{Package}
use chat_service_socket_cpp.User.{user_key}
use chat_service_socket_cpp.StdMap.{find}
use chat_service_socket_cpp.Database.RoomsDa.{room_key}
use chat_service_socket_cpp.Server.State.{World}
use chat_service_socket_cpp.Server.Poll.{Server, Ready, ReadResult, got, init}
use chat_service_socket_cpp.Server.Invariant.{IsValid}
use chat_service_socket_cpp.Server.Sync.{IsSynced}
use chat_service_socket_cpp.Server.Sync.Reachable.{IsUsable}
use chat_service_socket_cpp.Server.Sync.Restart.{offline}
use chat_service_socket_cpp.Server.RoomSync.{InStep, Brings}
use chat_service_socket_cpp.Server.RoomSync.Restart.{seen, emptied}

-- The maps are well-formed and say what the tables say.
pub record IsWhole (n : ℕ) (w : World) : Type 0 where
  pub valid : IsValid w
  pub synced : IsSynced n w
  pub in_step : InStep w

-- What one entry gives to read, where it is a package that fits.
abbrev pub Fits : ℕ → Env → ReadResult → Type 0
Fits n e (got pk) = Brings n e pk.type pk
Fits n e r = Unit

-- A round whose environment is usable, and in which every package that is read fits.
pub record IsFitting (n : ℕ) (round : Env × Ready) : Type 0 where
  pub usable : IsUsable n round.0
  pub fits : (i : ℕ) → Fits n round.0 (round.1.reads i)

abbrev Serves : ℕ → Option Server → Type 0
Serves n none = ⊥
Serves n (some s) = IsWhole n s.world

-- The server is there, and the maps that `Init` would make of its tables hold, under the name or id
-- `t`, its user, offline, and its room, empty.
abbrev pub Recovers : Env → ℤ → Text → Option Server → Type 0
Recovers e fd t none = ⊥
Recovers e fd t (some s) =
    (find user_key t (init e fd s.world.db).world.users ≡ offline (find user_key t s.world.users))
    × (seen (find room_key t (init e fd s.world.db).world.rooms)
        ≡ emptied (find room_key t s.world.rooms))
