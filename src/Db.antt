-- ===== src/Db.antt =====
-- app/db: the writes and the reads of the data platform.
pub mod Sql
pub mod Revisions
pub mod Inserts
pub mod Upsert
pub mod Repositories
