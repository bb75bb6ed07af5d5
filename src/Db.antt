-- ===== src/Db.antt =====
-- db/: change capture from SQLite, and the replay of changes into it.
pub mod Event
pub mod SchemaManager
pub mod SchemaCache
pub mod ChangeLog
pub mod Replicate
pub mod Sqlite
