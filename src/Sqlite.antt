-- ===== src/Sqlite.antt =====
-- src/knx_telegram_store/backends/sqlite.py: the conversion of wall-clock timestamps to UTC, which an
-- upgrade runs once on the tables of an old file.
pub mod Offsets
pub mod Bisect
pub mod Shifts
pub mod Backup
pub mod Lock
pub mod Migrate
pub mod Once
pub mod Rows
pub mod Evict
pub mod Evicted
