-- ===== src/Memory.antt =====
-- src/knx_telegram_store/backends/memory.py: the store on a bounded deque. A method returns its
-- result and, where it changes the store, the new store.
pub mod Times
pub mod Deque
pub mod Select
pub mod Latest
pub mod Filters
pub mod Window
pub mod Order
pub mod Pages
pub mod Newest
pub mod Contents
pub mod Overflow
pub mod Stats
use knx_telegram_store.Prelude.{
  ℕ, ◌<◌, ◌+◌, Bool, true, false, String, List, [], ◌∷◌, Option, none, some, length, map, min, max,
}
use knx_telegram_store.Prelude.Int.{ℤ, pos, negsuc, ltb_ℤ, ◌+ℤ◌}
use knx_telegram_store.Prelude.Slices.{slice}
use knx_telegram_store.Exceptions.{Result, ok, raise, raise_new, value_error, ◌>>=◌}
use knx_telegram_store.Model.{Time, StoredTelegram}
use knx_telegram_store.Query.{TelegramQuery, TelegramQueryResult}
use knx_telegram_store.Store.{wrap_store_errors, StoreCapabilities, StoreStats}
use Deque.{append, extend}
use Select.{select}
use Latest.{latest_of_each}

pub record MemoryStore : Type 0 where
  pub max_telegrams : ℕ
  pub telegrams : List StoredTelegram

-- The constructor; `deque(maxlen=...)` refuses a negative length.
unfoldable pub init : ℤ → Result MemoryStore
init (pos n) = ok (record { max_telegrams = n; telegrams = [] })
init (negsuc n) = raise_new value_error

unfoldable pub capabilities : MemoryStore → StoreCapabilities
capabilities s = record {
  supports_time_range = true;
  supports_time_delta = true;
  supports_pagination = true;
  supports_count = true;
  supports_size_stats = false;
  supports_optimize = false;
  read_only = false;
  max_storage = some s.max_telegrams;
}

unfoldable pub store : MemoryStore → StoredTelegram → MemoryStore
unfolding append
store s t = record s { telegrams = append s.max_telegrams s.telegrams t }

unfoldable pub store_many : MemoryStore → List StoredTelegram → MemoryStore
unfolding extend
store_many s ts = record s { telegrams = extend s.max_telegrams s.telegrams ts }

-- Step 5 of `query`, on the selected and ordered telegrams.
unfoldable pub paginate : TelegramQuery → List StoredTelegram → TelegramQueryResult
unfolding slice
paginate q results =
    let end = q.offset +ℤ q.limit in
    record {
      telegrams = slice q.offset end results;
      total_count = length results;
      limit_reached = ltb_ℤ end (pos (length results));
    }

unfoldable pub query : MemoryStore → TelegramQuery → Result TelegramQueryResult
unfolding select paginate wrap_store_errors
query s q = wrap_store_errors (do results ← select s.telegrams q; ok (paginate q results))

unfoldable pub count : MemoryStore → ℕ
count s = length s.telegrams

-- `min(timestamps)` and `max(timestamps)`.
abbrev pub min_of : Time → List Time → Time
min_of m [] = m
min_of m (x ∷ xs) = min_of (min m x) xs

abbrev pub max_of : Time → List Time → Time
max_of m [] = m
max_of m (x ∷ xs) = max_of (max m x) xs

abbrev pub oldest : List Time → Option Time
oldest [] = none
oldest (x ∷ xs) = some (min_of x xs)

abbrev pub newest : List Time → Option Time
newest [] = none
newest (x ∷ xs) = some (max_of x xs)

unfoldable pub get_stats : MemoryStore → StoreStats
get_stats s =
    let timestamps = map (λ (t : StoredTelegram). t.timestamp) s.telegrams in
    record {
      telegram_count = length s.telegrams;
      oldest_timestamp = oldest timestamps;
      newest_timestamp = newest timestamps;
      size_bytes = none;
      backend = "memory";
      retention_days = none;
    }

-- Retention is by number here: both evictions keep every telegram and report none.
unfoldable pub evict_older_than : MemoryStore → Time → Bool → MemoryStore × ℕ
evict_older_than s cutoff dry_run = (s, 0)

unfoldable pub evict_expired : MemoryStore → Bool → MemoryStore × ℕ
evict_expired s dry_run = (s, 0)

unfoldable pub get_last_unique_telegrams : MemoryStore → List StoredTelegram
unfolding latest_of_each
get_last_unique_telegrams s = latest_of_each s.telegrams

unfoldable pub clear : MemoryStore → MemoryStore
clear s = record s { telegrams = [] }
