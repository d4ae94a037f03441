-- ===== src/Sql.antt =====
-- src/knx_telegram_store/backends/base_sql.py: the tables of a SQL store and the store itself. A
-- table is the list of its rows; `NULL` is `none`.
pub mod Encode
pub mod Write
pub mod Select
pub mod Reads
pub mod Matching
pub mod Chosen
pub mod Clause
pub mod Page
pub mod Recall
pub mod Startup
pub mod Repair
pub mod Reconciled
pub mod Metadata
pub mod Indexes
pub mod Pending
pub mod Instants
pub mod Sound
pub mod Insert
pub mod Calls
pub mod Atomic
pub mod History
use knx_telegram_store.Prelude.{ℕ, Bool, String, List, Option, ◌≡◌, In, not, true, false, none}
use knx_telegram_store.Prelude.Sorting.{IsSorted}
use knx_telegram_store.Prelude.Reorder.{Reordered}
use knx_telegram_store.Prelude.Tests.{leb, if◌then◌else◌}
use knx_telegram_store.Prelude.Int.{ℤ}
use knx_telegram_store.Model.{Time, Float, Value}
use knx_telegram_store.Store.{StoreCapabilities}
use knx_telegram_store.Lookup.{Dialect, LookupTable, LookupCache}
use knx_telegram_store.Lookup.Pairs.{Pair}

-- What the JSON column of a payload holds: a number or an array of numbers.
pub data JsonPayload : Type 0 where
  json_int : ℤ → JsonPayload
  json_array : List ℤ → JsonPayload

-- A row of `telegrams` or of `last_ga_telegrams`, which have the same columns. `UtcDateTime` stores
-- and returns instants, so the column of a timestamp holds the instant.
pub record Row : Type 0 where
  pub timestamp : Time
  pub source_id : ℕ
  pub destination_id : ℕ
  pub telegramtype_id : ℕ
  pub direction_id : ℕ
  pub source_name_id : Option ℕ
  pub destination_name_id : Option ℕ
  pub payload : Option JsonPayload
  pub dpt_main : Option ℕ
  pub dpt_sub : Option ℕ
  pub value : Value
  pub value_numeric : Option Float
  pub raw_data : Option String
  pub data_secure : Option Bool

pub record Database : Type 0 where
  pub string_lookup : LookupTable
  pub telegrams : List Row
  pub last_ga_telegrams : List Row
  pub store_metadata : List (String × String)

-- A store on a database, with its fields.
pub record SqlStore : Type 0 where
  pub dialect : Dialect
  pub retention_days : Option ℕ
  pub read_only : Bool
  pub lookup_cache : LookupCache
  pub database : Database

-- The capabilities of `__init__`.
unfoldable pub capabilities : SqlStore → StoreCapabilities
capabilities s = record {
  supports_time_range = true;
  supports_time_delta = true;
  supports_pagination = true;
  supports_count = true;
  supports_size_stats = true;
  supports_optimize = not s.read_only;
  read_only = s.read_only;
  max_storage = none;
}

-- Whether a row may stand before another by `ORDER BY timestamp`, descending or not.
abbrev pub row_order : Bool → Row → Row → Bool
row_order descending a b =
    if descending then leb b.timestamp a.timestamp else leb a.timestamp b.timestamp

-- What Python and the database leave open: the order in which a set of pairs is walked, and which of
-- the sorted orders an `ORDER BY` gives to rows of one timestamp.
pub record Platform : Type 0 where
  pub iterate : List Pair → List Pair
  pub iterate-In : (p : Pair) (ps : List Pair) → In p ps → In p (iterate ps)
  pub order_by : Bool → List Row → List Row
  pub order_by-Reordered :
      (descending : Bool) (rows : List Row) → Reordered (order_by descending rows) rows
  pub order_by-IsSorted :
      (descending : Bool) (rows : List Row)
      → IsSorted (row_order descending) (order_by descending rows)
