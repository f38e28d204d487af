-- ===== src/Client/Exchange.antt =====
-- The client and the server together: what a user types, as the server reads it, and what the server
-- sends, as the client keeps it.
pub mod Login
pub mod Session
pub mod Chat
pub mod Rooms
pub mod Form
pub mod Accounts
pub mod Join
pub mod Recovery
pub mod RoomChat
pub mod Answered
pub mod With
pub mod Wire
