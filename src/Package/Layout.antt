-- ===== src/Package/Layout.antt =====
-- How the members of the union `message` lie in memory: the rules by which the compiler places the
-- fields of a `struct` on the server's machine, and the structures of server/models/commonStruct.h and
-- message.h, in the order of their fields.
use Prim.Native.Nat.{max}
use chat_service_socket_cpp.Common.{
  ℕ, ◌+◌, ◌≡◌, refl, arith, List, [], ◌∷◌, map, Bool, true, ◌==◌, ◌&&◌,
}
use chat_service_socket_cpp.Env.{Env}
use chat_service_socket_cpp.Package.{
  EType, code, nowork, loginn, withh, joinn, send_mess, login_success, login_fail, with_success,
  with_fail, join_success, join_fail, send_success, send_fail, terminate_chat, fail_terminate,
  success_terminate, show_room, all_room, show_users, create_user, create_success, create_fail,
  modify_user, modify_success, modify_fail, create_room, modify_room, get_roles, show_roles,
  delete_user, delete_success, delete_fail, delete_room, getuser, finduser, onlineuser, offlineuser,
  checkparty, p_word_at, state_at, role_at, sender_at, send_time_at, behind_name_at, size_message,
  align,
}

-- A field: an array of `char`, an `int` or an enumeration, or a `time_t`.
pub data Field : Type 0 where
  chars : ℕ → Field
  int32 time64 : Field

unfoldable pub size : Field → ℕ
size (chars n) = n
size int32 = 4
size time64 = 8

unfoldable pub alignment : Field → ℕ
alignment (chars n) = 1
alignment int32 = 4
alignment time64 = 8

-- The offsets of fields, of which the first comes behind `n` bytes, and the end of the last.
unfoldable pub offsets : ℕ → List Field → List ℕ
unfolding align alignment size
offsets n [] = []
offsets n (f ∷ fs) = let at = align (alignment f) n in at ∷ offsets (at + size f) fs

unfoldable pub end_of : ℕ → List Field → ℕ
unfolding align alignment size
end_of n [] = n
end_of n (f ∷ fs) = end_of (align (alignment f) n + size f) fs

unfoldable pub struct_alignment : List Field → ℕ
unfolding alignment
struct_alignment [] = 1
struct_alignment (f ∷ fs) = max (alignment f) (struct_alignment fs)

unfoldable pub struct_size : List Field → ℕ
unfolding align struct_alignment end_of
struct_size fs = align (struct_alignment fs) (end_of 0 fs)

unfoldable pub largest : List ℕ → ℕ
largest [] = 0
largest (n ∷ ns) = max n (largest ns)

unfoldable pub union_size : List (List Field) → ℕ
unfolding align largest struct_alignment struct_size
union_size us = align (largest (map struct_alignment us)) (largest (map struct_size us))

-- `union message`, by its members.
pub record UnionMessage : Type 0 where
  pub login : List Field
  pub mess_send : List Field
  pub withh : List Field
  pub join : List Field
  pub room : List Field

unfoldable pub members : UnionMessage → List (List Field)
members u = u.login ∷ u.mess_send ∷ u.withh ∷ u.join ∷ u.room ∷ []

-- The server's union.
unfoldable pub server_message : Env → UnionMessage
server_message e = record {
  login = chars e.size_u ∷ chars e.size_p ∷ chars e.size_u ∷ int32 ∷ [];
  mess_send = chars e.size_mess ∷ chars e.size_u ∷ time64 ∷ [];
  withh = chars e.size_u ∷ int32 ∷ [];
  join = chars e.size_u ∷ [];
  room = chars e.size_u ∷ int32 ∷ [];
}

-- The enumerators of the server's `enum eType`, in their order.
unfoldable pub server_types : List EType
server_types =
    nowork ∷ loginn ∷ withh ∷ joinn ∷ send_mess ∷ login_success ∷ login_fail ∷ with_success
    ∷ with_fail ∷ join_success ∷ join_fail ∷ send_success ∷ send_fail ∷ terminate_chat
    ∷ fail_terminate ∷ success_terminate ∷ show_room ∷ all_room ∷ show_users ∷ create_user
    ∷ create_success ∷ create_fail ∷ modify_user ∷ modify_success ∷ modify_fail ∷ create_room
    ∷ modify_room ∷ get_roles ∷ show_roles ∷ delete_user ∷ delete_success ∷ delete_fail
    ∷ delete_room ∷ getuser ∷ finduser ∷ onlineuser ∷ offlineuser ∷ checkparty ∷ []

-- The enumerators have the numbers of their places, as C gives them.
unfoldable pub numbered : ℕ → List EType → Bool
unfolding code
numbered n [] = true
numbered n (t ∷ ts) = (code t == n) && numbered (n + 1) ts

-- The offsets and the size of a union are those of the package.
pub record IsLaidOut (e : Env) (u : UnionMessage) : Type 0 where
  pub login : offsets 0 u.login ≡ 0 ∷ p_word_at e ∷ state_at e ∷ role_at e ∷ []
  pub mess_send : offsets 0 u.mess_send ≡ 0 ∷ sender_at e ∷ send_time_at e ∷ []
  pub withh : offsets 0 u.withh ≡ 0 ∷ behind_name_at e ∷ []
  pub join : offsets 0 u.join ≡ 0 ∷ []
  pub room : offsets 0 u.room ≡ 0 ∷ behind_name_at e ∷ []
  pub size : union_size (members u) ≡ size_message e

align_one : (n : ℕ) → align 1 n ≡ n
unfolding align
align_one n = omega arith

-- By the rules above each array and number of the server's union stands at the offset of the package,
-- and the union has its size, for whatever SIZE_U, SIZE_P and SIZE_MESS.
pub server_message-IsLaidOut : (e : Env) → IsLaidOut e (server_message e)
unfolding server_message offsets size alignment p_word_at state_at sender_at members
server_message-IsLaidOut e = record {
  login =
      unfold role_at in
      rw (align_one (0 + e.size_u), align_one (0 + e.size_u + e.size_p)) (ground arith);
  mess_send = unfold send_time_at in rw (align_one (0 + e.size_mess)) (ground arith);
  withh = unfold behind_name_at in ground arith;
  join = refl;
  room = unfold behind_name_at in ground arith;
  size =
      unfold union_size largest struct_size struct_alignment end_of size_message align in
      omega arith;
}
