-- ===== src/Database/Sql.antt =====
-- The tables, procedures and functions of init.sql, and the statements that the classes of
-- server/responsibility write out. `none` is an error that MySQL reports, for which the connector
-- throws `sql::SQLException`: a duplicate primary key, a foreign key without its row, or a message that
-- the columns do not take.
use chat_service_socket_cpp.Common.{
  ℕ, Bool, true, false, not, ◌&&◌, ◌||◌, Option, none, some, List, [], ◌∷◌, ◌++◌, Text, txt, length,
  if◌then◌else◌,
}
use chat_service_socket_cpp.Common.Int.{ℤ, pos, int_eq}
use chat_service_socket_cpp.Env.{Env}

pub record RoleRow : Type 0 where
  pub role_id : ℤ
  pub role : Text

-- `none` is a NULL.
pub record UserRow : Type 0 where
  pub username : Text
  pub password : Text
  pub state : Option Text
  pub role : ℤ

pub record RoomRow : Type 0 where
  pub room_id : Text
  pub capacity : ℤ

pub record MessageRow : Type 0 where
  pub sender : Text
  pub receiver : Text
  pub message : Text
  pub time : ℕ

pub record Tables : Type 0 where
  pub roles : List RoleRow
  pub users : List UserRow
  pub rooms : List RoomRow
  pub messages : List MessageRow

-- EXISTS (SELECT * ... WHERE test)
unfoldable pub exists {ℓ} : {A : Type ℓ} → (A → Bool) → List A → Bool
exists p [] = false
exists p (x ∷ xs) = let rest = exists p xs in if p x then true else rest

-- SELECT * ... WHERE test
unfoldable pub select {ℓ} : {A : Type ℓ} → (A → Bool) → List A → List A
select p [] = []
select p (x ∷ xs) = let rest = select p xs in if p x then x ∷ rest else rest

-- UPDATE ... WHERE test
unfoldable pub update {ℓ} : {A : Type ℓ} → (A → Bool) → (A → A) → List A → List A
update p f [] = []
update p f (x ∷ xs) = let rest = update p f xs in if p x then f x ∷ rest else x ∷ rest

-- DELETE ... WHERE test
abbrev pub delete {ℓ} : {A : Type ℓ} → (A → Bool) → List A → List A
delete p = select (λ x. not (p x))

abbrev pub by_username : Env → Text → UserRow → Bool
by_username e t row = e.sql_eq row.username t

abbrev pub by_room_id : Env → Text → RoomRow → Bool
by_room_id e t row = e.sql_eq row.room_id t

abbrev pub by_receiver : Env → Text → MessageRow → Bool
by_receiver e t row = e.sql_eq row.receiver t

abbrev pub by_sender_or_receiver : Env → Text → MessageRow → Bool
by_sender_or_receiver e t row = e.sql_eq row.sender t || e.sql_eq row.receiver t

-- FOREIGN KEY (role) REFERENCES roles(roleID)
unfoldable pub role_exists : ℤ → Tables → Bool
unfolding exists
role_exists r db = exists (λ row. int_eq row.role_id r) db.roles

unfoldable pub user_exists : Env → Text → Tables → Bool
unfolding exists
user_exists e t db = exists (by_username e t) db.users

-- INSERT INTO users (username, password, role) VALUES (?, ?, ?)
unfoldable pub insert_user : Env → Text → Text → ℤ → Tables → Option Tables
unfolding user_exists role_exists
insert_user e u p r db =
    if user_exists e u db || not (role_exists r db)
    then none
    else some (record db {
      users = db.users ++ record { username = u; password = p; state = none; role = r } ∷ [];
    })

-- FUNCTION ValidateLogin
unfoldable pub validate_login : Env → Text → Text → Tables → Bool
unfolding exists
validate_login e u p db =
    exists (λ row. e.sql_eq row.username u && e.sql_eq row.password p) db.users

-- PROCEDURE ClearState
unfoldable pub clear_state : Env → Text → Tables → Tables
unfolding update
clear_state e u db = record db {
  users = update (by_username e u) (λ row. record row { state = none }) db.users;
}

-- IF (p_type = 1, p_name, IF(p_type = 2, CONCAT('ROOM ', p_name), NULL))
unfoldable pub state_column : ℤ → Text → Option Text
unfolding txt
state_column type name =
    if int_eq type (pos 1)
    then some name
    else if int_eq type (pos 2)
    then some (txt "ROOM " ++ name)
    else none

-- PROCEDURE SetState
unfoldable pub set_state : Env → Text → ℤ → Text → Tables → Tables
unfolding update
set_state e u type name db = record db {
  users = update (by_username e u) (λ row. record row { state = state_column type name }) db.users;
}

-- PROCEDURE saveMessage
unfoldable pub save_message : Env → Text → Text → Text → ℕ → Tables → Option Tables
unfolding user_exists
save_message e s r m t db =
    if e.takes_message m t && (user_exists e s db && user_exists e r db)
    then some (record db {
      messages =
          db.messages
          ++ record { sender = s; receiver = r; message = m; time = e.stored_time t } ∷ [];
    })
    else none

-- PROCEDURE getMessageOfUser
unfoldable pub get_message_of_user : Env → Text → Tables → List MessageRow
unfolding select
get_message_of_user e r db = select (by_receiver e r) db.messages

-- PROCEDURE countMessageOfUser
unfoldable pub count_message_of_user : Env → Text → Tables → ℕ
unfolding select
count_message_of_user e r db = length (select (by_receiver e r) db.messages)

-- PROCEDURE deleteMessageOfUser
unfoldable pub delete_message_of_user : Env → Text → Tables → Tables
unfolding select
delete_message_of_user e r db = record db { messages = delete (by_receiver e r) db.messages }

-- PROCEDURE modifyUser
unfoldable pub modify_user : Env → Text → Text → ℤ → Tables → Option Tables
unfolding update user_exists role_exists
modify_user e u p r db =
    if user_exists e u db && not (role_exists r db)
    then none
    else some (record db {
      users = update (by_username e u) (λ row. record row { password = p; role = r }) db.users;
    })

-- PROCEDURE deleteUser: the messages refer to their users.
unfoldable pub delete_user : Env → Text → Tables → Option Tables
unfolding select exists user_exists
delete_user e u db =
    if user_exists e u db && exists (by_sender_or_receiver e u) db.messages
    then none
    else some (record db { users = delete (by_username e u) db.users })

-- INSERT INTO rooms (roomID, capacity) VALUES (?, ?)
unfoldable pub insert_room : Env → Text → ℤ → Tables → Option Tables
unfolding exists
insert_room e id c db =
    if exists (by_room_id e id) db.rooms
    then none
    else some (record db { rooms = db.rooms ++ record { room_id = id; capacity = c } ∷ [] })

-- PROCEDURE modifyRoom
unfoldable pub modify_room : Env → Text → ℤ → Tables → Tables
unfolding update
modify_room e id c db = record db {
  rooms = update (by_room_id e id) (λ row. record row { capacity = c }) db.rooms;
}

-- PROCEDURE deleteRoom
unfoldable pub delete_room : Env → Text → Tables → Tables
unfolding select
delete_room e id db = record db { rooms = delete (by_room_id e id) db.rooms }

-- FUNCTION haveOfflineMessage
unfoldable pub have_offline_message : Env → Text → Tables → Bool
unfolding exists
have_offline_message e u db = exists (by_sender_or_receiver e u) db.messages

-- PROCEDURE findUserWithName
unfoldable pub find_user_with_name : Env → Text → Tables → List UserRow
unfolding select txt
find_user_with_name e n db =
    select (λ row. e.sql_like row.username (txt "%" ++ n ++ txt "%")) db.users

-- PROCEDURE countUserWithName
unfoldable pub count_user_with_name : Env → Text → Tables → ℕ
unfolding find_user_with_name
count_user_with_name e n db = length (find_user_with_name e n db)
