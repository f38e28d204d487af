-- ===== src/Package/Fields.antt =====
-- What the receiver of a package reads, after the setters of the sender.
use chat_service_socket_cpp.Common.{
  ℕ, ◌+◌, ◌-◌, ◌≤◌, ◌<◌, ◌≡◌, ap, ◌∙◌, Text, ◌++◌, arith, length, length-append,
}
use chat_service_socket_cpp.Common.Int.{ℤ}
use chat_service_socket_cpp.Env.{Env}
use chat_service_socket_cpp.Message.{MessageSend}
use chat_service_socket_cpp.Memory.{
  Memory, strcpy, write_word, read_word, word_of_int, int_of_word, NoNul, Stored, IsInt,
}
use chat_service_socket_cpp.Memory.Laws.{
  cstr-Stored, Stored-strcpy, Stored-strcpy_after, Stored-strcpy_over,
}
use chat_service_socket_cpp.Memory.Words.{
  Fits, read_word-write_word, read_word-strcpy_before, Stored-write_word_after, word_of_int-Fits,
  int_of_word-word_of_int,
}
use chat_service_socket_cpp.Package.{
  Package, align, p_word_at, state_at, role_at, sender_at, send_time_at, behind_name_at,
  size_message, field, u_name, p_word, login_state, get_role, mess, sender, send_time, room_name,
  room_capacity, set_mess, set_up, set_state, set_role, set_sender, set_room_m, set_offline_mess,
  set_send_time, mess_send,
}

-- A name, a password or a message fits its array with its NUL.
pub record FitsIn (n : ℕ) (t : Text) : Type 0 where
  pub no_nul : NoNul t
  pub short : length t < n

-- The arrays of the union end before the union does.
pub sizes :
    (e : Env)
    → (e.size_u + e.size_p + e.size_u ≤ role_at e)
      × (role_at e + 4 ≤ size_message e)
      × (e.size_mess + e.size_u ≤ send_time_at e)
      × (send_time_at e + 8 ≤ size_message e)
      × (e.size_u ≤ behind_name_at e)
unfolding size_message role_at send_time_at behind_name_at align
sizes e = omega arith

-- A text that is stored at an offset and ends within the union is what the field reads.
pub field-Stored :
    (e : Env) (o : ℕ) (t : Text) (m : Memory)
    → Stored o t m
    → o + length t < size_message e
    → field e o m ≡ t
unfolding field
field-Stored e o t m s h = cstr-Stored (size_message e - o) o t m s (omega arith)

pub mess-set_mess :
    (e : Env) (t : Text) (p : Package)
    → NoNul t
    → length t < size_message e
    → mess e (set_mess e t p) ≡ t
unfolding mess set_mess
mess-set_mess e t p n h =
    field-Stored e 0 t (strcpy 0 t p.message) (Stored-strcpy 0 t p.message n) (omega arith)

pub sender-set_sender :
    (e : Env) (t : Text) (p : Package) → FitsIn e.size_u t → sender e (set_sender e t p) ≡ t
unfolding sender set_sender sender_at
sender-set_sender e t p f =
    field-Stored e e.size_mess t (strcpy e.size_mess t p.message)
      (Stored-strcpy e.size_mess t p.message f.no_nul) (omega (arith, sizes e, f.short))

-- Signing a message keeps its text.
pub mess-set_sender :
    (e : Env) (s t : Text) (p : Package)
    → FitsIn e.size_mess t
    → mess e (set_sender e s (set_mess e t p)) ≡ t
unfolding mess set_sender set_mess sender_at
mess-set_sender e s t p f =
    field-Stored e 0 t (strcpy e.size_mess s (strcpy 0 t p.message))
      (Stored-strcpy_after e.size_mess s 0 t (strcpy 0 t p.message) (omega (arith, f.short))
        (Stored-strcpy 0 t p.message f.no_nul))
      (omega (arith, sizes e, f.short))

-- A message whose text and sender fit their arrays with a NUL and whose time has 64 bits is, after
-- `setOfflineMess`, what `showAction().MessSend` gives.
pub mess_send-set_offline_mess :
    (e : Env) (msg : MessageSend) (p : Package)
    → FitsIn e.size_mess msg.mess
    → FitsIn e.size_u msg.sender
    → Fits 8 msg.send_time
    → mess_send e (set_offline_mess e msg p) ≡ msg
unfolding mess_send set_offline_mess mess sender send_time set_mess set_sender set_send_time
    sender_at
mess_send-set_offline_mess e msg p fm fs ft =
    let m₀ : Memory = strcpy 0 msg.mess p.message in
    let m₁ : Memory = strcpy e.size_mess msg.sender m₀ in
    let m₂ : Memory = write_word 8 (send_time_at e) msg.send_time m₁ in
    let mess_eq : field e 0 m₂ ≡ msg.mess =
      field-Stored e 0 msg.mess m₂
        (Stored-write_word_after 8 (send_time_at e) msg.send_time 0 msg.mess m₁
          (omega (arith, sizes e, fm.short))
          (Stored-strcpy_after e.size_mess msg.sender 0 msg.mess m₀ (omega (arith, fm.short))
            (Stored-strcpy 0 msg.mess p.message fm.no_nul)))
        (omega (arith, sizes e, fm.short)) in
    let sender_eq : field e e.size_mess m₂ ≡ msg.sender =
      field-Stored e e.size_mess msg.sender m₂
        (Stored-write_word_after 8 (send_time_at e) msg.send_time e.size_mess msg.sender m₁
          (omega (arith, sizes e, fs.short)) (Stored-strcpy e.size_mess msg.sender m₀ fs.no_nul))
        (omega (arith, sizes e, fs.short)) in
    let time_eq : read_word 8 (send_time_at e) m₂ ≡ msg.send_time =
      read_word-write_word 8 (send_time_at e) msg.send_time m₁ ft in
    λ i. record { mess = mess_eq i; sender = sender_eq i; send_time = time_eq i }

-- After `setRoomM` with an id that fits its array with a NUL and a capacity that is an `int`, the
-- package gives this id and this capacity.
pub set_room_m_lem :
    (e : Env) (id : Text) (c : ℤ) (p : Package)
    → FitsIn e.size_u id
    → IsInt c
    → (room_name e (set_room_m e id c p) ≡ id) × (room_capacity e (set_room_m e id c p) ≡ c)
unfolding room_name room_capacity set_room_m
set_room_m_lem e id c p f i =
    let m₀ : Memory = strcpy 0 id p.message in
    (
      field-Stored e 0 id (write_word 4 (behind_name_at e) (word_of_int c) m₀)
          (Stored-write_word_after 4 (behind_name_at e) (word_of_int c) 0 id m₀
            (omega (arith, sizes e, f.short)) (Stored-strcpy 0 id p.message f.no_nul))
          (omega (arith, sizes e, f.short)),
      ap int_of_word
            (read_word-write_word 4 (behind_name_at e) (word_of_int c) m₀ (word_of_int-Fits c))
          ∙ int_of_word-word_of_int c i,
    )

-- After `setRole`, `setUP` and `setState` in this order, with texts that fit their arrays with a NUL
-- and a role that is an `int`, the package gives this name, password, state and role.
pub login_fields :
    (e : Env) (u w s : Text) (r : ℤ) (p : Package)
    → FitsIn e.size_u u
    → FitsIn e.size_p w
    → FitsIn e.size_u s
    → IsInt r
    → let q = set_state e s (set_up e u w (set_role e r p)) in
      (u_name e q ≡ u) × (p_word e q ≡ w) × (login_state e q ≡ s) × (get_role e q ≡ r)
unfolding u_name p_word login_state get_role set_state set_up set_role p_word_at state_at
login_fields e u w s r p fu fw fs i =
    let su = e.size_u in
    let at_s = e.size_u + e.size_p in
    let m₀ : Memory = write_word 4 (role_at e) (word_of_int r) p.message in
    let m₁ : Memory = strcpy 0 u m₀ in
    let m₂ : Memory = strcpy su w m₁ in
    let m₃ : Memory = strcpy at_s s m₂ in
    (
      field-Stored e 0 u m₃
          (Stored-strcpy_after at_s s 0 u m₂ (omega (arith, fu.short)) (
            Stored-strcpy_after su w 0 u m₁ (omega (arith, fu.short))
              (Stored-strcpy 0 u m₀ fu.no_nul)))
          (omega (arith, sizes e, fu.short)),
      field-Stored e su w m₃
          (Stored-strcpy_after at_s s su w m₂ (omega (arith, fw.short))
            (Stored-strcpy su w m₁ fw.no_nul))
          (omega (arith, sizes e, fw.short)),
      field-Stored e at_s s m₃ (Stored-strcpy at_s s m₂ fs.no_nul)
          (omega (arith, sizes e, fs.short)),
      ap int_of_word (
            read_word-strcpy_before 4 at_s s (role_at e) m₂ (omega (arith, sizes e, fs.short))
            ∙ read_word-strcpy_before 4 su w (role_at e) m₁ (omega (arith, sizes e, fw.short))
            ∙ read_word-strcpy_before 4 0 u (role_at e) m₀ (omega (arith, sizes e, fu.short))
            ∙ read_word-write_word 4 (role_at e) (word_of_int r) p.message (word_of_int-Fits r))
          ∙ int_of_word-word_of_int r i,
    )

-- For a name of exactly SIZE_U bytes without a NUL and a password that fits its array, the name that
-- is read after `setUP` is the name with the password behind it; the password is read as it is.
pub u_name-set_up_full :
    (e : Env) (u w : Text) (p : Package)
    → NoNul u
    → length u ≡ e.size_u
    → FitsIn e.size_p w
    → (u_name e (set_up e u w p) ≡ u ++ w) × (p_word e (set_up e u w p) ≡ w)
unfolding u_name p_word set_up p_word_at
u_name-set_up_full e u w p n h f =
    let m₀ : Memory = strcpy 0 u p.message in
    let m₁ : Memory = strcpy e.size_u w m₀ in
    (
      field-Stored e 0 (u ++ w) m₁
          (Stored-strcpy_over 0 e.size_u u w p.message (omega arith) n f.no_nul)
          (omega (arith, sizes e, f.short, length-append {0} u w)),
      field-Stored e e.size_u w m₁ (Stored-strcpy e.size_u w m₀ f.no_nul)
          (omega (arith, sizes e, f.short)),
    )
