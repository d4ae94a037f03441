-- ===== src/Sql/Reads.antt =====
-- The other methods of `BaseSQLStore` that read.
use knx_telegram_store.Prelude.{ℕ, String, List, [], ◌∷◌, map, Option, none, some, length}
use knx_telegram_store.Exceptions.{PyException, Result}
use knx_telegram_store.Model.{StoredTelegram}
use knx_telegram_store.Store.{wrap_store_errors, StoreStats}
use knx_telegram_store.Memory.{oldest, newest}
use knx_telegram_store.Sql.{Row, SqlStore}
use knx_telegram_store.Sql.Encode.{decode}
use knx_telegram_store.Sql.Select.{answered}

unfoldable pub count : Option PyException → SqlStore → Result ℕ
unfolding wrap_store_errors
count answer s = wrap_store_errors (answered answer (length s.database.telegrams))

-- `_size_bytes` of the base class is `None`; `backend` is the name of the engine's dialect.
unfoldable pub get_stats : String → Option PyException → SqlStore → Result StoreStats
unfolding wrap_store_errors
get_stats backend answer s =
    let timestamps = map (λ (r : Row). r.timestamp) s.database.telegrams in
    wrap_store_errors (
      answered answer (record {
        telegram_count = length s.database.telegrams;
        oldest_timestamp = oldest timestamps;
        newest_timestamp = newest timestamps;
        size_bytes = none;
        backend = backend;
        retention_days = s.retention_days;
      }))

-- The inner joins: a row whose required texts are not found gives nothing.
abbrev pub joined : List (Option StoredTelegram) → List StoredTelegram
joined [] = []
joined (none ∷ os) = joined os
joined (some t ∷ os) = t ∷ joined os

unfoldable pub get_last_unique_telegrams :
    Option PyException → SqlStore → Result (List StoredTelegram)
unfolding decode wrap_store_errors
get_last_unique_telegrams answer s = wrap_store_errors (
    answered answer
      (joined (map (decode s.database.string_lookup.rows) s.database.last_ga_telegrams)))
