-- ===== src/Client.antt =====
-- client/: the terminal program. One thread asks for lines and sends packages, another receives.
pub mod Package
pub mod User
pub mod Color
pub mod Text
pub mod State
pub mod Menu
pub mod Receiver
pub mod Loop
pub mod Login
pub mod Chat
pub mod Forms
pub mod Command
pub mod Main
pub mod Connect
pub mod Invariant
pub mod Offline
pub mod Roles
pub mod Answers
pub mod Exchange
