-- ===== src/Database/Access.antt =====
-- The functions of server/service/databaseAccess.cpp: each makes an object of a class of
-- server/responsibility and calls its method.
use chat_service_socket_cpp.Common.{ℕ, Bool, Option, List, Text}
use chat_service_socket_cpp.Env.{Env}
use chat_service_socket_cpp.Message.{MessageSend}
use chat_service_socket_cpp.User.{User}
use chat_service_socket_cpp.Room.{Room}
use chat_service_socket_cpp.Database.Sql.{Tables}
use chat_service_socket_cpp.Database.UsersDa
use chat_service_socket_cpp.Database.RoomsDa
use chat_service_socket_cpp.Database.MessagesDa
use chat_service_socket_cpp.Database.RolesDa

unfoldable pub update_state : Env → User → Tables → Tables
unfolding UsersDa.update_state
update_state e u db = UsersDa.update_state e u db

unfoldable pub clear_state : Env → User → Tables → Tables
unfolding UsersDa.clear_state
clear_state e u db = UsersDa.clear_state e u db

unfoldable pub save_message : Env → MessageSend → Text → Tables → Option Tables
unfolding MessagesDa.save_message
save_message e msg receiver db = MessagesDa.save_message e msg receiver db

unfoldable pub get_message_of_user : Env → User → Tables → Option (List MessageSend)
unfolding MessagesDa.get_message_of_user
get_message_of_user e u db = MessagesDa.get_message_of_user e u db

unfoldable pub count_message_of_user : Env → User → Tables → ℕ
unfolding MessagesDa.count_message_of_user
count_message_of_user e u db = MessagesDa.count_message_of_user e u db

unfoldable pub delete_message_of_user : Env → User → Tables → Tables
unfolding MessagesDa.delete_message_of_user
delete_message_of_user e u db = MessagesDa.delete_message_of_user e u db

unfoldable pub have_offline_message : Env → User → Tables → Bool
unfolding MessagesDa.have_offline_message
have_offline_message e u db = MessagesDa.have_offline_message e u db

unfoldable pub insert_user : Env → User → Tables → Option Tables
unfolding UsersDa.insert_user
insert_user e u db = UsersDa.insert_user e u db

unfoldable pub modify_user_db : Env → User → Tables → Option Tables
unfolding UsersDa.modify_user
modify_user_db e u db = UsersDa.modify_user e u db

unfoldable pub delete_user_db : Env → User → Tables → Option Tables
unfolding UsersDa.delete_user
delete_user_db e u db = UsersDa.delete_user e u db

unfoldable pub insert_room : Env → Room → Tables → Option Tables
unfolding RoomsDa.insert_room
insert_room e r db = RoomsDa.insert_room e r db

unfoldable pub modify_room_db : Env → Room → Tables → Tables
unfolding RoomsDa.modify_room
modify_room_db e r db = RoomsDa.modify_room e r db

unfoldable pub delete_room_db : Env → Room → Tables → Tables
unfolding RoomsDa.delete_room
delete_room_db e r db = RoomsDa.delete_room e r db

unfoldable pub find_user_with_name : Env → Text → Tables → List User
unfolding UsersDa.find_user_with_name
find_user_with_name e name db = UsersDa.find_user_with_name e name db

unfoldable pub count_user_with_name : Env → Text → Tables → ℕ
unfolding UsersDa.count_user_with_name
count_user_with_name e name db = UsersDa.count_user_with_name e name db

unfoldable pub get_all_roles : Tables → Text
get_all_roles db = RolesDa.get_all_roles db
