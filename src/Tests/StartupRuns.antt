-- ===== src/Tests/StartupRuns.antt =====
-- The startup pass on a database with a stale summary, and instants through the column type.
use knx_telegram_store.Prelude.{
  ℕ, Bool, true, false, List, [], ◌∷◌, none, some, ◌≡◌, refl, arith, leb, String, string_eq, inl,
  inr,
}
use knx_telegram_store.Prelude.Int.{pos}
use knx_telegram_store.Exceptions.{Result, ok}
use knx_telegram_store.Model.{int_value}
use knx_telegram_store.Lookup.{sqlite}
use knx_telegram_store.Sql.{Row, Database}
use knx_telegram_store.Sql.Startup.{
  metadata_value, set_metadata_value, Catalogue, ensure_indexes, pending_startup_work, reconcile,
  last_ga_reconciled_key,
}
use knx_telegram_store.Sql.Reconciled.{OncePerDestination, Repairs}
use knx_telegram_store.Sql.Metadata.{metadata_value-set_metadata_value}
use knx_telegram_store.Sql.Indexes.{KeepsDeclared}
use knx_telegram_store.Sql.Pending.{
  reconcile-Repairs, pending_startup_work-reconcile, reconcile-pending,
}
use knx_telegram_store.Sql.Instants.{
  Datetime, datetime_to_micros, utc, process_bind_param, process_result_value, ColumnValue,
  datetime_value, process_result_value-process_bind_param,
}

abbrev row : ℕ → ℕ → ℕ → Row
row at from to = record {
  timestamp = at;
  source_id = from;
  destination_id = to;
  telegramtype_id = 8;
  direction_id = 9;
  source_name_id = none;
  destination_name_id = none;
  payload = none;
  dpt_main = none;
  dpt_sub = none;
  value = int_value (pos 0);
  value_numeric = none;
  raw_data = none;
  data_secure = none;
}

abbrev before : Row → Row → Bool
before a b = leb a.source_id b.source_id

-- A stale summary for 5, none for 6, and two latest telegrams of 6.
abbrev stale : Database
stale = record {
  string_lookup = record { rows = []; next_id = 1 };
  telegrams = row 10 1 5 ∷ row 20 1 5 ∷ row 30 3 6 ∷ row 30 2 6 ∷ [];
  last_ga_telegrams = row 10 1 5 ∷ [];
  store_metadata = [];
}

reconcile-stale : reconcile before stale ≡ record stale {
  last_ga_telegrams = row 20 1 5 ∷ row 30 2 6 ∷ [];
  store_metadata = (last_ga_reconciled_key, "true") ∷ [];
}
unfolding reconcile
reconcile-stale = refl

stale_once : OncePerDestination stale.last_ga_telegrams
stale_once = (λ u m. absurd m, tt)

reconcile-Repairs_example :
    Repairs stale.telegrams stale.last_ga_telegrams (reconcile before stale).last_ga_telegrams
unfolding metadata_value
reconcile-Repairs_example = reconcile-Repairs before stale stale_once refl

abbrev declared : String → List String
declared table = "ix_telegrams_timestamp" ∷ "ix_telegrams_dpt" ∷ []

declared_kept : (t : String) → KeepsDeclared (declared t)
declared_kept t name (inl e) = rw (← e) refl
declared_kept t name (inr (inl e)) = rw (← e) refl
declared_kept t name (inr (inr nowhere)) = absurd nowhere

abbrev catalogue : Catalogue
catalogue = record { has_table = λ t. true; indexes = λ t. some ("ix_telegrams_direction_id" ∷ []) }

stale_pending : pending_startup_work declared catalogue stale ≡ true
unfolding pending_startup_work
stale_pending = refl

pending_startup_work-reconcile_example :
    pending_startup_work declared (ensure_indexes declared catalogue) (reconcile before stale)
    ≡ false
pending_startup_work-reconcile_example =
    pending_startup_work-reconcile before declared catalogue stale declared_kept

abbrev indexed : Catalogue
indexed = record {
  has_table = λ t. true;
  indexes = λ t. some ("ix_telegrams_dpt" ∷ "ix_telegrams_timestamp" ∷ []);
}

abbrev current : Database
current = record stale {
  last_ga_telegrams = row 20 1 5 ∷ row 30 2 6 ∷ [];
  store_metadata = (last_ga_reconciled_key, "true") ∷ [];
}

current_idle : pending_startup_work declared indexed current ≡ false
unfolding pending_startup_work
current_idle = refl

reconcile-pending_example :
    ((reconcile before current).telegrams ≡ current.telegrams)
    × ((reconcile before current).last_ga_telegrams ≡ current.last_ga_telegrams)
reconcile-pending_example = reconcile-pending before declared indexed current refl current_idle

metadata_value-set_metadata_value_example :
    metadata_value "schema" (set_metadata_value "schema" "2" (("schema", "1") ∷ [])) ≡ some "2"
metadata_value-set_metadata_value_example =
    metadata_value-set_metadata_value "schema" "2" (("schema", "1") ∷ [])

-- Noon at +02:00 on the first day of the epoch.
abbrev noon : Datetime
noon = record { digits = 62135640000000000; tzinfo = some (pos 7200000000) }

noon_micros : datetime_to_micros noon ≡ pos 36000000000
unfolding datetime_to_micros
noon_micros = refl

abbrev no_text : String → Result Datetime
no_text s = ok (utc 0)

process_result_value-process_bind_param_example :
    (v : ColumnValue) × (process_bind_param (datetime_value noon) sqlite ≡ ok v)
    × (process_result_value no_text v sqlite ≡ ok (datetime_value (utc 62135632800000000)))
process_result_value-process_bind_param_example =
    process_result_value-process_bind_param no_text sqlite noon 62135632800000000 (omega arith) refl
