-- ===== src/Client/Forms.antt =====
-- The administrator's forms: each asks for a few lines and sends one package.
pub mod Users
pub mod Rooms
