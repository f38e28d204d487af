-- ===== src/Client/Invariant.antt =====
-- The flags, the prompts and the waits of the client in every state that it reaches.
pub mod Handlers
pub mod Forms
pub mod Receiver
pub mod Steps
pub mod Runs
use chat_service_socket_cpp.Common.{
  if◌then◌else◌, ◌≡◌, refl, Bool, true, false, not, ◌&&◌, ◌||◌, none, some, Option, arith, Text,
  List, [], ◌∷◌, ltb, length, text_eq, txt,
}
use chat_service_socket_cpp.Common.Int.{ℤ, int_eq, pos, is_pos}
use chat_service_socket_cpp.Env.{Env}
use chat_service_socket_cpp.Memory.{Memory, str_to_char}
use chat_service_socket_cpp.Package.{EType, Package, nowork, set_type}
use chat_service_socket_cpp.Client.Package.{package_of}
use chat_service_socket_cpp.Client.State.{
  Prompt, Phase, Client, send_package, input_line, wait, ask, read_at, say, say_line, send,
}
use chat_service_socket_cpp.Client.Loop.{
  open_chat, command_loop, top, after_command, test_flags, handlers, after_with,
}
use chat_service_socket_cpp.Client.Main.{is_reading}

-- The prompts at which the main thread waits for the other.
abbrev pub is_wait : Prompt → Bool
is_wait Prompt.wait_login = true
is_wait Prompt.wait_command = true
is_wait Prompt.wait_list = true
is_wait Prompt.wait_back_with = true
is_wait Prompt.wait_back_room = true
is_wait (Prompt.wait_modify_roles name password) = true
is_wait Prompt.wait_modified = true
is_wait (Prompt.wait_create_roles name password) = true
is_wait Prompt.wait_created = true
is_wait Prompt.wait_deleted = true
is_wait Prompt.wait_room_created = true
is_wait Prompt.wait_room_modified = true
is_wait Prompt.wait_room_deleted = true
is_wait _ = false

abbrev pub is_login : Prompt → Bool
is_login Prompt.enter_username = true
is_login (Prompt.enter_password name) = true
is_login Prompt.wait_login = true
is_login _ = false

abbrev pub IsPlaced : Client → Type 0
IsPlaced c = is_wait c.prompt ≡ not (is_reading c.phase)

-- The packages of a list but the requests for the roles.
abbrev pub asks_roles : EType → Bool
asks_roles EType.get_roles = true
asks_roles _ = false

unfoldable pub but_roles : List Package → List Package
but_roles [] = []
but_roles (p ∷ ps) = let rest = but_roles ps in if asks_roles p.type then rest else p ∷ rest

-- The main thread changes neither the user nor the flags, and without a connection it sends
-- nothing but the request for the roles of `modifyHandler`.
abbrev pub Kept : Client → Client → Type 0
Kept c d =
    (d.user ≡ c.user)
    × (d.flag_check ≡ c.flag_check)
    × (d.flag_w ≡ c.flag_w)
    × (d.flag_j ≡ c.flag_j)
    × (c.flag_check ≡ true → but_roles d.sent ≡ but_roles c.sent)

abbrev pub Moved : Client → Client → Type 0
Moved c d = Kept c d × IsPlaced d

pub Moved-either :
    (b : Bool) (c x y : Client) → Moved c x → Moved c y → Moved c (if b then x else y)
Moved-either true c x y h k = h
Moved-either false c x y h k = k

pub Kept-say : (t : Text) (c : Client) → Kept c (say t c)
unfolding say
Kept-say t c = (refl, refl, refl, refl, λ h. refl)

pub Kept-say_line : (t : Text) (c : Client) → Kept c (say_line t c)
unfolding say_line say
Kept-say_line t c = (refl, refl, refl, refl, λ h. refl)

-- `send` without the test of `sendPackage`, behind that test and for the roles.
pub Kept-send_tested : (p : Package) (c : Client) → c.flag_check ≡ false → Kept c (send p c)
unfolding send
Kept-send_tested p c h = ground (arith, h)

pub Kept-send_roles : (e : Env) (c : Client) → Kept c (send (package_of e EType.get_roles) c)
unfolding send but_roles package_of set_type
Kept-send_roles e c = (refl, refl, refl, refl, λ h. refl)

pub Kept-input_line : (c : Client) → Kept c (input_line c)
unfolding input_line
Kept-input_line c = ground arith

pub Kept-send_package : (p : Package) (c : Client) → Kept c (send_package p c).1
unfolding send_package send say_line say
Kept-send_package p c = ground arith

pub Moved-open_chat : (c : Client) → Moved c (open_chat c)
unfolding open_chat read_at
Moved-open_chat c = ground (arith, Kept-input_line c)

pub Moved-command_loop : (c : Client) → Moved c (command_loop c)
unfolding command_loop read_at
Moved-command_loop c = ground (arith, Kept-input_line c, Moved-open_chat c)

pub Moved-top : (e : Env) (c : Client) → Moved c (top e c)
unfolding top ask read_at say
Moved-top e c =
    ground (arith, Moved-open_chat c, Moved-command_loop (record c { pkg = package_of e nowork }))

pub Moved-after_command : (c : Client) → Moved c (after_command c)
unfolding after_command
Moved-after_command c = ground arith

pub Moved-test_flags :
    (p : Prompt) (c : Client)
    → c.phase ≡ Phase.before_test
    → p ≡ c.prompt
    → IsPlaced c
    → Moved c (test_flags p c)
unfolding test_flags
Moved-test_flags Prompt.wait_command c h q p = ground (arith, h, q, p, Moved-open_chat c)
Moved-test_flags q c h r p = ground (arith, p)

pub Moved-handlers : (e : Env) (c : Client) → Moved c (handlers e c)
unfolding handlers
Moved-handlers e c = ground (arith, Moved-open_chat c, Moved-top e c)

pub Moved-after_with : (e : Env) (c : Client) → Moved c (after_with e c)
unfolding after_with read_at
Moved-after_with e c = ground (arith, Kept-input_line c, Moved-top e c)

-- A wait or a question behind something that keeps the flags.
pub Moved-wait : (p : Prompt) (c d : Client) → is_wait p ≡ true → Kept c d → Moved c (wait p d)
unfolding wait
Moved-wait p c d w k = ground (arith, w, k)

pub Moved-ask :
    (p : Prompt) (t : Text) (c d : Client) → is_wait p ≡ false → Kept c d → Moved c (ask p t d)
unfolding ask read_at say
Moved-ask p t c d w k = ground (arith, w, k)
