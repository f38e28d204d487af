-- ===== src/Server.antt =====
-- class sock_connect (server/service/sock_connect.h and sock_connect.cpp). The state and the lookups
-- are in State, the handlers in the modules named for what they handle.
pub mod State
pub mod Offline
pub mod Login
pub mod Chat
pub mod Rooms
pub mod Users
pub mod Listing
pub mod Dispatch
pub mod Poll
pub mod Frame
pub mod Invariant
pub mod Sync
pub mod Guards
pub mod Delivery
pub mod Slots
pub mod Membership
pub mod Sessions
pub mod RoomSync
pub mod StoreForward
pub mod Undelivered
