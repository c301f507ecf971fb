-- ===== src/Scripts.antt =====
-- The maintenance scripts of backend/app/scripts, without what they print and what they ask of the
-- network, the file system and the database.
pub mod Dsn
pub mod Artifacts
pub mod Restore
pub mod Backup
pub mod LoadTest
