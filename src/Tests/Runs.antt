-- ===== src/Tests/Runs.antt =====
-- A run of the small server.
use chat_service_socket_cpp.Common.{not, ◌==◌, true, List, [], ◌∷◌, Text}
use chat_service_socket_cpp.Common.Int.{pos}
use chat_service_socket_cpp.Env.{Env}
use chat_service_socket_cpp.Package.{EType, Package, fresh, set_up, set_room_m}
use chat_service_socket_cpp.Database.Sql.{Tables}
use chat_service_socket_cpp.Server.Poll.{Ready, ReadResult, got}
use chat_service_socket_cpp.Tests.{env, ann, bob, hi, tables}

-- A package with a name and the password "hi".
abbrev about : Text → EType → Package
about name t = set_up env name hi (fresh env t)

-- The tables with a room "hi" for two.
abbrev with_room : Tables
with_room = record tables { rooms = record { room_id = hi; capacity = pos 2 } ∷ [] }

-- "ann" connects, logs in, creates a room "bob" for three, and her connection ends.
abbrev connect : Ready
connect = record { revents = λ i. true; nready = 1; connfd = pos 4; reads = λ i. ReadResult.failed }

abbrev reads : ReadResult → Ready
reads r = record { revents = λ i. not (i == 0); nready = 1; connfd = pos 5; reads = λ i. r }

abbrev new_room : Package
new_room = set_room_m env bob (pos 3) (fresh env EType.create_room)

abbrev rounds : List (Env × Ready)
rounds =
    (env, connect)
    ∷ (env, reads (got (about ann EType.loginn)))
    ∷ (env, reads (got new_room))
    ∷ (env, reads ReadResult.ended)
    ∷ []
