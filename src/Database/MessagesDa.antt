-- ===== src/Database/MessagesDa.antt =====
-- server/responsibility/messagesDA.cpp, and the functions of databaseAccess.cpp that call it.
use chat_service_socket_cpp.Common.{
  ℕ, Bool, Option, none, some, List, map, Text, if◌then◌else◌, ◌==◌,
}
use chat_service_socket_cpp.Env.{Env}
use chat_service_socket_cpp.Memory.{str_to_char}
use chat_service_socket_cpp.Message.{MessageSend}
use chat_service_socket_cpp.User.{User}
use chat_service_socket_cpp.Database.Sql
use chat_service_socket_cpp.Database.Sql.{Tables, MessageRow}

-- `messagesDA::saveMessage`
unfoldable pub save_message : Env → MessageSend → Text → Tables → Option Tables
unfolding Sql.save_message
save_message e msg receiver db = Sql.save_message e msg.sender receiver msg.mess msg.send_time db

unfoldable pub read_message : MessageRow → MessageSend
unfolding str_to_char
read_message row = record {
  sender = str_to_char row.sender;
  mess = str_to_char row.message;
  send_time = row.time;
}

-- `messagesDA::getMessageOfUser`: `none` is the null pointer; else the messages, behind which one
-- more element is left as `new` made it.
unfoldable pub get_message_of_user : Env → User → Tables → Option (List MessageSend)
unfolding read_message Sql.get_message_of_user Sql.count_message_of_user
get_message_of_user e u db =
    if Sql.count_message_of_user e u.username db == 0
    then none
    else some (map read_message (Sql.get_message_of_user e u.username db))

-- `messagesDA::deleteMessageOfUser`
unfoldable pub delete_message_of_user : Env → User → Tables → Tables
unfolding Sql.delete_message_of_user
delete_message_of_user e u db = Sql.delete_message_of_user e u.username db

-- `messagesDA::countMessageOfUser`
unfoldable pub count_message_of_user : Env → User → Tables → ℕ
unfolding Sql.count_message_of_user
count_message_of_user e u db = Sql.count_message_of_user e u.username db

-- `messagesDA::haveOfflineMessage`
unfoldable pub have_offline_message : Env → User → Tables → Bool
unfolding Sql.have_offline_message
have_offline_message e u db = Sql.have_offline_message e u.username db
