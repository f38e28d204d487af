-- ===== src/Tests/Wires.antt =====
-- The theorems on the bytes of a connection, at packages of the small server.
use chat_service_socket_cpp.Common.{ℕ, ◌≡◌, ◌≤◌, ◌+◌, refl, arith, true, some, [], ◌∷◌}
use chat_service_socket_cpp.Common.Int.{pos}
use chat_service_socket_cpp.Memory.{Memory, read_word}
use chat_service_socket_cpp.Package.{EType, Package, size_message, align, code}
use chat_service_socket_cpp.Package.Wire.{
  package_size, written, read_package, read_packages, type_of, read_packages-short,
}
use chat_service_socket_cpp.Server.Poll.{Server, got, handle_entry}
use chat_service_socket_cpp.Client.State.{wait_login, ask, read_at, say_line, say}
use chat_service_socket_cpp.Client.Login.{login_request, line_array, password_array}
use chat_service_socket_cpp.Client.Loop.{top}
use chat_service_socket_cpp.Client.Main.{run, start, new_client, line}
use chat_service_socket_cpp.Client.Exchange.Login.{login_by}
use chat_service_socket_cpp.Client.Exchange.Wire.{login-over_wire}
use chat_service_socket_cpp.Tests.{env, bob, hi, world, hi-FitsIn, bob-IsName}

-- What the memory holds before a read.
abbrev junk : Memory
junk = λ i. 7

-- What lies between the members of a package, and what follows it.
abbrev pad : Memory
pad = λ i. 0

-- A server with the connection 6 at each entry.
abbrev server : Server
server = record { world = world; fds = λ i. pos 6; events = λ i. true; maxi = 1 }

-- A package of a known type, and one of an unknown type.
abbrev asking : Package
asking = record { type = EType.withh; message = λ i. i }

abbrev working : Package
working = record { type = EType.unknown 3; message = λ i. 0 }

-- The first read ends behind 20 bytes, of which 12 are of the union.
read_packages-short_example :
    let s = written env pad (asking ∷ []) pad in
    let first = read_package junk 20 s in
    let second = read_package junk 20 (λ i. s (20 + i)) in
    (read_packages junk (20 ∷ 20 ∷ []) s ≡ first ∷ second ∷ [])
    × (first.type ≡ EType.withh)
    × ((i : ℕ) → 20 ≤ 8 + i → first.message i ≡ junk (8 + i))
    × (second.type ≡ type_of (read_word 4 12 asking.message))
unfolding code package_size size_message align
read_packages-short_example =
    read_packages-short env junk pad pad asking [] 20 20 refl (omega arith) (ground arith)
      (omega arith)

login-over_wire_example :
    let d = run env (line bob ∷ line hi ∷ []) (start env) in
    let p = login_request env (line_array env bob) (password_array env hi) in
    let read = read_package junk (package_size env) (written env pad (p ∷ []) pad) in
    (d.sent ≡ p ∷ (start env).sent)
    × (d.prompt ≡ wait_login)
    × (handle_entry env 1 (got read) server
        ≡ some (record server { world = login_by env (pos 6) bob hi world }))
unfolding start new_client top ask read_at say_line say
login-over_wire_example =
    login-over_wire env bob hi (start env) junk pad pad 1 server bob-IsName.fits hi-FitsIn refl refl
      refl
