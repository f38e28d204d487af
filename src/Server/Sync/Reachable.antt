-- ===== src/Server/Sync/Reachable.antt =====
-- A run of the server, as the packages and the ends of connections that `Execute` handles one after
-- the other, from the start on the tables of the database.
use chat_service_socket_cpp.Common.{
  ℕ, ◌≡◌, ◌≤◌, true, refl, subst, is_some, All, [], Option, some, none, Text,
}
use chat_service_socket_cpp.Common.Int.{ℤ, pos}
use chat_service_socket_cpp.Env.{Env, IsBinary}
use chat_service_socket_cpp.Package.{Package}
use chat_service_socket_cpp.User.{user_key}
use chat_service_socket_cpp.StdMap.{find}
use chat_service_socket_cpp.Database.Sql.{Tables, UserRow, role_exists}
use chat_service_socket_cpp.Database.UsersDa.{map_user, read_user, select_all_users}
use chat_service_socket_cpp.Database.Rows.{find_row}
use chat_service_socket_cpp.Server.State.{World}
use chat_service_socket_cpp.Server.Dispatch.{analyze_package}
use chat_service_socket_cpp.Server.Poll.{init, disconnect}
use chat_service_socket_cpp.Server.Invariant.{IsValid, Ends}
use chat_service_socket_cpp.Server.Invariant.Handlers.{analyze_package-IsValid}
use chat_service_socket_cpp.Server.Invariant.Loop.{init-IsValid, disconnect-IsValid}
use chat_service_socket_cpp.Server.Sync.{IsSynced, IsName, Refers, Agree, Admits, Returns}
use chat_service_socket_cpp.Server.Sync.Steps.{analyze_package-IsSynced, disconnect-IsSynced}
use chat_service_socket_cpp.Server.Sync.Restart.{
  offline, entry_of_row, find-map_users, find-map_user,
}

-- Tables that a server can start from.
pub record IsStartable (n : ℕ) (db : Tables) : Type 0 where
  pub named : (t : Text) → is_some (find_row t db.users) ≡ true → IsName n t
  pub refer : All (Refers db.users) db.messages
  pub admin : role_exists (pos 1) db ≡ true
  pub user : role_exists (pos 2) db ≡ true

-- What one environment must be like: an exact database, and names that fit.
pub record IsUsable (n : ℕ) (e : Env) : Type 0 where
  pub exact : IsBinary e
  pub fits : n ≤ e.size_u

-- One step of the server: a package that `Admits` allows is handled, or a connection ends. The
-- environment may differ from step to step, as the clock does.
pub data Step (n : ℕ) : World → World → Type 0 where
  handled :
      {v w : World} (e : Env) (fd : ℤ) (pk : Package)
      → IsUsable n e
      → Admits n e w pk.type pk
      → analyze_package e fd pk w ≡ some v
      → Step n w v
  lost : {w : World} (e : Env) (fd : ℤ) → IsUsable n e → Step n w (disconnect e fd w)

pub data Reach (n : ℕ) (start : World) : World → Type 0 where
  here : Reach n start start
  next : {v w : World} → Reach n start w → Step n w v → Reach n start v

pub record IsSound (n : ℕ) (w : World) : Type 0 where
  pub valid : IsValid w
  pub synced : IsSynced n w

pub init-IsSynced :
    (n : ℕ) (e : Env) (fd : ℤ) (db : Tables) → IsStartable n db → IsSynced n (init e fd db).world
unfolding init map_user select_all_users find read_user
init-IsSynced n e fd db s = record {
  agree = λ t. rw (find-map_users t db.users [] tt) (agree (find_row t db.users));
  plain = λ t h. s.named t (
      named (find_row t db.users)
        (subst (λ o. is_some o ≡ true) (find-map_users t db.users [] tt) h));
  refer = s.refer;
  admin = s.admin;
  user = s.user;
}
  where
    agree : (r : Option UserRow) → Agree (entry_of_row r) r
    agree none = tt
    agree (some row) = record { password = refl; role = refl; state = refl }

    named : (r : Option UserRow) → is_some (entry_of_row r) ≡ true → is_some r ≡ true
    named none h = h
    named (some row) h = refl

Step-IsSound : (n : ℕ) {w v : World} → Step n w v → IsSound n w → IsSound n v
Step-IsSound n {w} {v} (handled e fd pk usable admitted ends) s = record {
  valid = subst (Ends IsValid) ends (analyze_package-IsValid e fd pk w s.valid);
  synced = subst (Returns (IsSynced n)) ends (
      analyze_package-IsSynced n e usable.exact usable.fits fd pk w admitted s.valid.users_sorted
        s.synced);
}
Step-IsSound n {w = w} (lost e fd usable) s = record {
  valid = disconnect-IsValid e fd w s.valid;
  synced = disconnect-IsSynced n e usable.exact usable.fits fd w s.valid.users_sorted s.synced;
}

Reach-IsSound : (n : ℕ) {start w : World} → Reach n start w → IsSound n start → IsSound n w
Reach-IsSound n here s = s
Reach-IsSound n (next r step) s = Step-IsSound n step (Reach-IsSound n r s)

-- Let the server start on tables that have the roles 1 and 2, whose usernames are not empty, shorter
-- than `n` and not of the form "ROOM ...", and whose messages have both users in the table; let it
-- handle any packages and ends of connections, as long as new users and rooms come as `Admits` says,
-- the database compares texts exactly and `n` is at most SIZE_U. Then the next such package does not
-- end it with an exception, and a server that starts again from the tables would find the same users,
-- with the same passwords, roles and states, offline.
pub Reach-survives :
    (n : ℕ) (e₀ e : Env) (listenfd fd : ℤ) (db : Tables) (w : World) (pk : Package) (t : Text)
    → IsStartable n db
    → Reach n (init e₀ listenfd db).world w
    → IsUsable n e
    → Admits n e w pk.type pk
    → (is_some (analyze_package e fd pk w) ≡ true)
      × (find user_key t (map_user w.db []) ≡ offline (find user_key t w.users))
Reach-survives n e₀ e listenfd fd db w pk t startable reached usable admitted =
    let start : IsSound n (init e₀ listenfd db).world = record {
      valid = init-IsValid e₀ listenfd db;
      synced = init-IsSynced n e₀ listenfd db startable;
    } in
    let s = Reach-IsSound n reached start in
    (
      returned (analyze_package e fd pk w) (
          analyze_package-IsSynced n e usable.exact usable.fits fd pk w admitted
            s.valid.users_sorted s.synced),
      find-map_user n w t s.synced,
    )
  where
    returned : (r : Option World) → Returns (IsSynced n) r → is_some r ≡ true
    returned none a = absurd a
    returned (some v) a = refl
