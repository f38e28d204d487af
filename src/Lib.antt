-- ===== src/Lib.antt =====
-- Verification of the chat service: the server of server/ with its database, init.sql, and the client
-- of client/.
--
-- Clients send packages of one fixed size over TCP. The server (server/service/sock_connect.cpp) polls
-- its connections, reads one package from each ready one and handles it: users log in, turn to another
-- user or to a room and write to them, and administrators keep accounts and rooms. The server holds
-- its users and rooms in two maps and writes every change to MySQL through the functions of
-- server/service/databaseAccess.cpp and the classes of server/responsibility, so that a restart can
-- read them back. Messages for users who are absent are kept in a table until the next login.
--
-- The client (client/service/client.cpp) has two threads: one reads commands, messages and forms from
-- the terminal and sends packages; the other receives packages, shows them, sets the flags of the
-- conversation and wakes the first, which waits for the answers to its requests.
--
-- The files and the code that they model:
--   Common          Booleans, texts as bytes, `int` values, splits that keep an equation
--   StdMap          what the server uses of `std::map`, as a list sorted by the key
--   Memory          C strings and integers in memory; `strToChar` of server/Util/util.cpp
--   Message         server/models/message.h
--   Package         server/models/package.h and commonStruct.h: the union is one memory, a field an
--                   offset, a setter a write and a reader a read there
--   Package/Layout  server/models/commonStruct.h and message.h, as structures with their layout
--   Package/Wire    the bytes of a package on a connection, `write` and `read` there
--   User            server/models/user.h and user.cpp
--   Room            server/models/Room.h and Room.cpp
--   Database/Sql    the tables and procedures of init.sql, and the INSERT statements
--   Database/UsersDa, RoomsDa, MessagesDa, RolesDa
--                   server/responsibility/usersDA.cpp, roomsDA.cpp, messagesDA.cpp, rolesDA.cpp
--   Database/Access server/service/databaseAccess.cpp
--   Server/State    the fields of `sock_connect` and its lookups
--   Server/Offline  LeaveRoom, changeStateUserOff, notificationOffline, handleOfflineMessage
--   Server/Login    Login
--   Server/Chat     WithFunction, OneToOneChat, RoomChat, LeaveChatUser
--   Server/Rooms    addRoom, JoinRoom, ModifyRoom, DeleteRoom
--   Server/Users    AddUser, DeleteUser, handleModifyUser
--   Server/Listing  FindUser, ShowRoom, getListRoles, getUserOnline
--   Server/Dispatch analyzePackage
--   Server/Poll     Init, EventServer, Execute
--   Client/Package  client/models/package.h: its setters, on the memory of Package
--   Client/User     client/models/user.h and user.cpp
--   Client/Color    changeColor, Clear_opt, detectmess
--   Client/Text     substr, strstr, copy and atoi, as the client uses them
--   Client/State    the globals of client.cpp, sendPackage, inputLine, the condition variable
--   Client/Menu     showMenu
--   Client/Receiver receiverHandler, doRecieving
--   Client/Loop     Excecute, up to the next prompt
--   Client/Login    loginHandler
--   Client/Chat     withHandler, roomHandler
--   Client/Command  commandHandler, getAllUser, findUser
--   Client/Forms/Users
--                   modifyHandler, showAllRoles, createNewUser, clearUser
--   Client/Forms/Rooms
--                   createNewRoom, modifyRoomHandler, removeRoom
--   Client/Connect  connectServer, reconnectServer and the search of doRecieving, main
--   Client/Main     the steps of both threads
-- Operations have the names of the source in lower case with underscores. The other files hold the
-- proofs: StdMap/Laws and Scan, Memory/Laws and Words, Package/Fields, Room/Members and Laws,
-- Database/Rows and RoomRows, Server/Frame, Invariant, Sync, RoomSync, Guards, Delivery, StoreForward,
-- Undelivered, Slots, Membership and Sessions;
-- Client/Color/Shift and Bounds, Client/Text/Numbers, Client/Invariant, Offline, Roles, Answers and
-- Exchange; Tests applies the theorems to a small server and its clients.
--
-- A handler of the server takes the state and gives the state after it, with what it wrote to clients
-- in `out`, newest first. `Run` is the result of a handler that the connector's exception can end,
-- which the code catches nowhere. A number of the source is the native natural number or an integer
-- `pos n` or `negsuc n` (that is, -1 - n); packages carry their integers in 4 or 8 bytes with
-- wrap-around. Loops over arrays carry the number of rounds that are left, which the code's own bound
-- gives; the loop of Clear_opt gets as many as the text has bytes. A memory is total: what the code
-- does behind an array is written out, not stopped.
--
-- The main thread of the client stands at a prompt, which holds the local variables of its function,
-- and an event (`Event`) is what either thread meets there: a line, a number, a package, the end of the
-- connection. What the main thread does between two prompts is one step. A wait has two steps: the
-- thread comes to it (`before_wait`) and then waits, and only a thread that waits is woken by a signal.
-- Behind a command a third comes first, the test of the flags (`before_test`).
--
-- Parameters (Env): the sizes SIZE_U, SIZE_P and SIZE_MESS, since the server's config.h is not in the
-- repository (the client's has 20, 20 and 4096); what uninitialised memory holds; the clock and
-- `localtime`; how MySQL compares texts, where `IsBinary` says that it tells any two apart; whether
-- the columns of the messages take a text and a time, and what a time becomes there. init.sql names no
-- collation, and the usual ones of MySQL are not binary: what needs `IsBinary` says so.
--
-- Not modelled: failures of the database other than duplicate or missing keys and messages that the
-- columns do not take, so the widths of the columns of users and rooms; countAllUsers and
-- countAllRooms, since a list carries the number of its rows; the sockets themselves. The bytes on a
-- connection stand in Package/Wire, while the event loop takes the package that a read makes of them;
-- a write succeeds; what `socket` and `connect` return to the client is an argument, in Client/Main
-- whether the server is there, and initSocket calls nothing else. Also not: the end of the client's
-- input, and wakeups without a signal; a NULL from `localtime`, which the client calls for every
-- package; the heap that LeaveRoom overwrites behind its array of one byte; what the client does
-- behind its `char` arrays of 1024 and SIZE_MESS bytes, where a text is followed as a whole, and an
-- overlong state that would reach `flag_l`; the server's console output; the sharing of a room's array
-- between copies that are thrown away; deletePosition, timeToStr and SetStdinEcho, which nothing
-- calls; build, deployment and test scripts.
pub mod Common
pub mod StdMap
pub mod Memory
pub mod Env
pub mod Package
pub mod User
pub mod Room
pub mod Message
pub mod Database
pub mod Server
pub mod Client
pub mod Tests
