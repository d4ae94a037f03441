-- ===== src/Lib.antt =====
-- knx-telegram-store: a model of the library that stores KNX telegrams, and what holds of it.
--
-- The program keeps telegrams (src/knx_telegram_store/model.py) in a store and answers queries
-- (query.py). A store implements one interface (store.py); the one in backends/memory.py is a bounded
-- deque, the others are SQL databases. The buffer of buffered.py stands before any store: it collects
-- telegrams and writes them in batches. The tools of mcp/ ask a store for JSON answers.
--
-- Files:
--   Prelude: lists, Boolean tests, integers, equality, filtering, sorting and slices.
--   Model, Query: `StoredTelegram`, `TelegramQuery` and `TelegramQueryResult`, field by field.
--   Query/Matching: what the docstring of `TelegramQuery` promises of the filters.
--   Exceptions, Store: exceptions as values, `wrap_store_errors`, `StoreCapabilities`, `StoreStats`.
--   Memory: `MemoryStore`, one function for a method; Memory/Select has the steps of `query`,
--     Memory/Latest the loop of `get_last_unique_telegrams`, Memory/Deque and Memory/Times the deque
--     and the datetime arithmetic of Python that they use.
--   Buffered: `_BufferMixin` over an arbitrary store, the record `Backend` of Buffered/Backend.
--     Buffered/Buffer has `store` and `_requeue`, Buffered/DataError `_data_error_cause`,
--     Buffered/Flush `_flush`, Buffered/Calls the public methods with `_mutation` and `_write_gate`,
--     Buffered/Traffic any call as a value, Buffered/Dropped the telegrams that a flush gives up,
--     Buffered/OverMemory the `BufferedMemoryStore` and Buffered/OverSql the `store_many` of a
--     buffered SQL store.
--   Sql: `BaseSQLStore` of backends/base_sql.py on tables that are lists of rows. Sql/Write has the
--     writing methods, Sql/Select the row queries of `query`, Sql/Reads the other reads, Sql/Startup
--     `initialize` and `needs_migration`, Sql/Instants `UtcDateTime`, Sql/Calls any call as a value;
--     Sql/Sound says when tables stand for telegrams, Sql/Chosen which telegrams a query is for.
--   Sqlite: what backends/sqlite.py adds: Sqlite/Offsets has the conversion of wall-clock timestamps to
--     UTC, Sqlite/Migrate the rows that it takes, Sqlite/Backup the backups and the disk-space tests,
--     Sqlite/Evict the override of `evict_older_than`.
--   Connection: connection.py, `evaluate_sqlite_path` over a file system; Connection/Probe has the
--     probes, and the checks of both SQL stores that run them.
--   Lookup: `LookupCache` of lookup.py with the rows of its table; Lookup/Pairs has the dictionaries.
--   Mcp: Mcp/Types has the dataclasses of mcp/types.py, Mcp/Tools the tools over what a store answers,
--     Mcp/Text their work on texts. `fromisoformat`, `isoformat` and Unicode's digits are parameters.
--   Tests: runs on concrete telegrams.
--
-- Time is a number of microseconds since the year 1, a timedelta an integer of microseconds. The
-- bounds of both types and the OverflowError beyond them are written out in Memory/Times. A
-- telegram's timestamp is aware and stands for its instant; a bound of a query is aware or naive. A
-- payload that a SQL store reads back is a number or a list, since JSON has no tuples. Telegrams
-- and calls of `close` that arrive while a buffered call waits for its store are lists that the call
-- takes: one list for each write of a flush. A call that waits for a backup to end has no result yet.
-- Fuel bounds the loops of a client over pages (Memory/Pages, Mcp/Paging), where more fuel than
-- telegrams left is enough, and the digits of a number in Mcp/Text, where one more than the number
-- is: each round divides by ten. Message texts, the cancellation of a call that waits for a
-- lock, the timer of the periodic flush and the ETS XML format are not modelled. Of the SQL
-- stores, what the subclasses add is not modelled where it is schema changes, statistics, text
-- timestamps or TimescaleDB. The bisection of Sqlite/Offsets has fuel for 64 halvings, more than
-- any range of datetimes needs, and its walk a round for each hour. A SQL statement is the
-- change of the tables or the rows that SQL documents for it; whether a transaction commits or
-- what it raises is given for each call.
pub mod Prelude
pub mod Model
pub mod Query
pub mod Exceptions
pub mod Store
pub mod Memory
pub mod Buffered
pub mod Mcp
pub mod Lookup
pub mod Sql
pub mod Sqlite
pub mod Connection
pub mod Tests
