-- ===== src/Storage.antt =====
-- crates/api/src/storage.rs: the SQLite stores. Each store has one database thread, which runs one
-- job at a time, so a job is a function of the database before it.
pub mod Rows
pub mod Cache
pub mod Shortlinks
mod Examples
