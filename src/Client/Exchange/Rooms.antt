-- ===== src/Client/Exchange/Rooms.antt =====
-- `createNewRoom` of the client, as `addRoom` of the server reads it.
use chat_service_socket_cpp.Common.{
  ℕ, ◌<◌, ◌≡◌, refl, false, arith, [], ◌∷◌, Text, txt, text_eq, length, ap, ◌∙◌,
}
use chat_service_socket_cpp.Common.Int.{pos}
use chat_service_socket_cpp.Env.{Env}
use chat_service_socket_cpp.Memory.{str_to_char}
use chat_service_socket_cpp.Memory.Laws.{str_to_char-eq}
use chat_service_socket_cpp.Database.RolesDa.{to_string}
use chat_service_socket_cpp.Package
use chat_service_socket_cpp.Package.{EType, Package, room_name, room_capacity, set_type}
use chat_service_socket_cpp.Package.Fields.{FitsIn, set_room_m_lem}
use chat_service_socket_cpp.Client.Package.{zero_package, set_room_m}
use chat_service_socket_cpp.Client.Text.{atoi}
use chat_service_socket_cpp.Client.Text.Numbers.{atoi-to_string, to_string-numeral}
use chat_service_socket_cpp.Client.State.{
  Phase, Client, create_room_id, create_room_capacity, wait_room_created, send_package, send, ask,
  read_at, wait, say,
}
use chat_service_socket_cpp.Client.Forms.Rooms.{
  enter_room_id, enter_room_capacity, create_room_request,
}
use chat_service_socket_cpp.Client.Main.{run, step, enter_line, line}
use chat_service_socket_cpp.Client.Exchange.Login.{step-line}

abbrev asked : Text → Client → Client
asked id c = ask (create_room_capacity id) (txt "Capacity: ") c

enter_room_id-asked :
    (e : Env) (id : Text) (c : Client)
    → length id < e.size_u
    → text_eq id (txt "?ignore") ≡ false
    → text_eq id [] ≡ false
    → enter_room_id e id c ≡ asked id c
unfolding enter_room_id
enter_room_id-asked e id c f g h = ground (arith, g, h)

enter_room_capacity-sent :
    (e : Env) (id : Text) (n : ℕ) (c : Client)
    → 0 < n
    → n < 2147483648
    → c.flag_check ≡ false
    → ((enter_room_capacity e id (to_string (pos n)) c).sent
        ≡ create_room_request e id (pos n) ∷ c.sent)
      × ((enter_room_capacity e id (to_string (pos n)) c).prompt ≡ wait_room_created)
unfolding enter_room_capacity send_package send wait
enter_room_capacity-sent e id n c h k o =
    let cut = to_string-numeral n in
    let value : atoi (str_to_char (to_string (pos n))) ≡ pos n =
      ap atoi cut.0 ∙ atoi-to_string (pos n) k in
    ground (arith, o, value, cut.1)

create_room-run :
    (e : Env) (id t : Text) (c : Client)
    → length id < e.size_u
    → text_eq id (txt "?ignore") ≡ false
    → text_eq id [] ≡ false
    → c.prompt ≡ create_room_id
    → c.phase ≡ Phase.reading
    → run e (line id ∷ line t ∷ []) c ≡ enter_room_capacity e id t (asked id c)
unfolding run
create_room-run e id t c f g h p r =
    let first : step e (line id) c ≡ asked id c =
      step-line e id create_room_id c p r
      ∙ (unfold enter_line in enter_room_id-asked e id c f g h) in
    let second : step e (line t) (asked id c) ≡ enter_room_capacity e id t (asked id c) =
      unfold enter_line ask read_at in
      step-line e t (create_room_capacity id) (asked id c) refl refl in
    ap (λ (d : Client). step e (line t) d) first ∙ second

request_fields :
    (e : Env) (id : Text) (n : ℕ)
    → FitsIn e.size_u id
    → n < 2147483648
    → (room_name e (create_room_request e id (pos n)) ≡ id)
      × (room_capacity e (create_room_request e id (pos n)) ≡ pos n)
unfolding create_room_request set_room_m Package.set_room_m
request_fields e id n f k =
    rw (str_to_char-eq id f.no_nul)
      (set_room_m_lem e id (pos n) (set_type EType.create_room zero_package) f k)

-- A room that an administrator types in arrives as typed: for an id that fits its array, is not empty
-- and not "?ignore", and for the numeral of a capacity that is a positive `int`, the client sends one
-- package, in which the server reads this id and this capacity, and will wait.
pub create_room-typed :
    (e : Env) (id : Text) (n : ℕ) (c : Client)
    → FitsIn e.size_u id
    → text_eq id (txt "?ignore") ≡ false
    → text_eq id [] ≡ false
    → 0 < n
    → n < 2147483648
    → c.prompt ≡ create_room_id
    → c.phase ≡ Phase.reading
    → c.flag_check ≡ false
    → let d = run e (line id ∷ line (to_string (pos n)) ∷ []) c in
      let p = create_room_request e id (pos n) in
      (d.sent ≡ p ∷ c.sent)
      × (d.prompt ≡ wait_room_created)
      × (p.type ≡ EType.create_room)
      × (room_name e p ≡ id)
      × (room_capacity e p ≡ pos n)
create_room-typed e id n c f g h b k p r o =
    let done = create_room-run e id (to_string (pos n)) c f.short g h p r in
    let sent = enter_room_capacity-sent e id n (asked id c) b k (unfold ask read_at say in o) in
    let fields = request_fields e id n f k in
    (
      ap (λ (d : Client). d.sent) done ∙ (unfold ask read_at say in sent.0),
      ap (λ (d : Client). d.prompt) done ∙ (unfold ask read_at say in sent.1),
      unfold create_room_request set_room_m set_type in refl,
      fields.0,
      fields.1,
    )
