-- ===== src/Database.antt =====
-- The database of init.sql, and the classes of server/responsibility and the functions of
-- server/service/databaseAccess.cpp that call it.
pub mod Sql
pub mod UsersDa
pub mod RoomsDa
pub mod MessagesDa
pub mod RolesDa
pub mod Access
pub mod Rows
pub mod RoomRows
