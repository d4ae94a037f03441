-- ===== src/Buffered.antt =====
-- src/knx_telegram_store/buffered.py: write-buffering in front of a backing store. The mixin's
-- `super()` is a `Backend`; src/knx_telegram_store/backends/memory.py is one of them.
--
-- A call that holds the mutation lock runs as a whole, since the lock shuts out every other such
-- call. What can happen while it waits for the backing store is the `Arrival`s: telegrams that are
-- stored meanwhile and the first step of `close`, which take no lock.
pub mod Backend
pub mod DataError
pub mod Buffer
pub mod Flush
pub mod Calls
pub mod Traffic
pub mod Keeps
pub mod Bounds
pub mod Backup
pub mod Growth
pub mod Dropped
pub mod Conservation
pub mod OverMemory
pub mod OverSql
