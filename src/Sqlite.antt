-- ===== src/Sqlite.antt =====
-- Package store/sqlite (store/sqlite/sqlite.go, the statements of store/sqlite/queries and the table of
-- store/sqlite/schema.sql).
pub mod Clock
pub mod Driver
pub mod Defs
pub mod Listing
pub mod Guards
pub mod Rows
pub mod Invariant
pub mod Keeps
pub mod Index
pub mod Reads
pub mod Writes
pub mod Contract
pub mod Cleanup
pub mod Failures
pub mod Between
pub mod Flaky
pub mod Unrecorded
pub mod Open
