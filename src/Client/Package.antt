-- ===== src/Client/Package.antt =====
-- client/models/package.h: the client's copy of the package. It lies in memory as the server's, but the
-- constructor fills in a name and a password, and `setMess` stores the time.
use chat_service_socket_cpp.Common.{Text, txt}
use chat_service_socket_cpp.Common.Int.{ℤ}
use chat_service_socket_cpp.Env.{Env}
use chat_service_socket_cpp.Memory.{strcpy, write_word, word_of_int}
use chat_service_socket_cpp.Package.{
  EType, Package, nowork, code, p_word_at, role_at, sender_at, send_time_at, behind_name_at,
  set_type,
}

module _ (e : Env) where
  unfoldable pub set_up : Text → Text → Package → Package
  unfolding strcpy p_word_at
  set_up u w p = record p { message = strcpy (p_word_at e) w (strcpy 0 u p.message) }

  -- `package()`
  unfoldable pub new_package : Package
  unfolding set_up txt
  new_package = set_up (txt "admin") (txt "1") (record { type = nowork; message = e.junk_message })

  unfoldable pub set_time : Package → Package
  unfolding write_word send_time_at
  set_time p = record p { message = write_word 8 (send_time_at e) e.now p.message }

  unfoldable pub set_mess : Text → Package → Package
  unfolding strcpy set_time
  set_mess m p = let timed = set_time p in record timed { message = strcpy 0 m timed.message }

  unfoldable pub set_sender : Text → Package → Package
  unfolding strcpy sender_at
  set_sender s p = record p { message = strcpy (sender_at e) s p.message }

  unfoldable pub set_room_m : Text → ℤ → Package → Package
  unfolding strcpy behind_name_at write_word word_of_int
  set_room_m r c p = record p {
    message = write_word 4 (behind_name_at e) (word_of_int c) (strcpy 0 r p.message);
  }

  unfoldable pub set_type_with : EType → Package → Package
  unfolding behind_name_at write_word code
  set_type_with t p = record p { message = write_word 4 (behind_name_at e) (code t) p.message }

  unfoldable pub set_role : ℤ → Package → Package
  unfolding role_at write_word word_of_int
  set_role r p = record p { message = write_word 4 (role_at e) (word_of_int r) p.message }

  -- package pkg; pkg.setType(t);
  unfoldable pub package_of : EType → Package
  unfolding new_package set_type
  package_of t = set_type t new_package

-- memset(&newpk, 0, sizeof(newpk))
unfoldable pub zero_package : Package
zero_package = record { type = nowork; message = λ b. 0 }

unfoldable pub set_rev : Text → Package → Package
unfolding strcpy
set_rev u p = record p { message = strcpy 0 u p.message }

unfoldable pub set_room : Text → Package → Package
unfolding strcpy
set_room r p = record p { message = strcpy 0 r p.message }
