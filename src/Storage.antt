-- ===== src/Storage.antt =====
-- src/storage/: the in-memory stores and the builder of SQL queries. A store is a record of its maps;
-- a method returns the new store, or what it reads.
pub mod Workflows
pub mod Runs
pub mod Sql
