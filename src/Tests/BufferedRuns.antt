-- ===== src/Tests/BufferedRuns.antt =====
-- A buffered store over a list that refuses the telegrams of one source, on a few calls.
use knx_telegram_store.Prelude.{
  Bool, true, false, List, [], ◌∷◌, ◌++◌, none, some, ◌≡◌, refl, arith, length, ◌==◌, string_eq,
  if◌then◌else◌, ◌||◌,
}
use knx_telegram_store.Exceptions.{
  PyException, ok, raise_new, fresh, raised_from, data_error, driver_error,
  knx_telegram_store_exception,
}
use knx_telegram_store.Model.{StoredTelegram}
use knx_telegram_store.Store.{StoreStats}
use knx_telegram_store.Buffered.Backend.{Backend, Buffered, Action}
use knx_telegram_store.Buffered.DataError.{
  data_error_cause, data_error_cause-Searched, Searched, Within,
}
use knx_telegram_store.Buffered.Buffer.{Arrival, stored}
use knx_telegram_store.Buffered.Flush.{flush_locked}
use knx_telegram_store.Buffered.Dropped.{dropped}
use knx_telegram_store.Buffered.Conservation.{Kept, flush_locked-Kept}
use knx_telegram_store.Buffered.OverSql.{
  SqlBacking, OtherMethods, sql_backend, SqlHolds, sql_journal,
}
use knx_telegram_store.Lookup.{sqlite}
use knx_telegram_store.Sql.Write
use knx_telegram_store.Sql.Write.{committed, failed}
use knx_telegram_store.Sql.Recall.{empty_store, empty_store-IsSound}
use knx_telegram_store.Tests.SqlRuns.{platform}
use knx_telegram_store.Buffered.Keeps.{IsBounded}
use knx_telegram_store.Buffered.Bounds.{perform_all-IsBounded}
use knx_telegram_store.Buffered.Backup.{SameBacking, perform_all-SameBacking}
use knx_telegram_store.Buffered.Traffic.{Call, store_call, flush_call, perform_all}
use knx_telegram_store.Memory
use knx_telegram_store.Buffered.Calls
use knx_telegram_store.Buffered.OverMemory.{memory_backend, running, query-flush_first}
use knx_telegram_store.Tests.Samples.{memory, from_first, telegram, early, middle, late}

abbrev has_bad : List StoredTelegram → Bool
has_bad [] = false
has_bad (t ∷ ts) = t.source == "bad" || has_bad ts

abbrev log_store_many : List StoredTelegram → Action (List StoredTelegram) Unit
log_store_many ts log = if has_bad ts then (raise_new data_error, log) else (ok tt, log ++ ts)

abbrev no_stats : StoreStats
no_stats = record {
  telegram_count = 0;
  oldest_timestamp = none;
  newest_timestamp = none;
  size_bytes = none;
  backend = "log";
  retention_days = none;
}

abbrev log_backend : Backend
log_backend = record {
  State = List StoredTelegram;
  initialize = λ log. (ok tt, log);
  close = λ log. (ok tt, log);
  store_many = log_store_many;
  query = λ q log. ok (record { telegrams = log; total_count = length log; limit_reached = false });
  get_last_unique_telegrams = λ log. ok log;
  get_stats = λ log. ok no_stats;
  begin_backup = λ log. (ok tt, log);
  end_backup = λ log. (ok tt, log);
  optimize = λ log. (ok tt, log);
  clear = λ log. (ok tt, []);
  evict_older_than = λ cutoff dry_run log. (ok 0, log);
  retention_cutoff = λ now log. none;
}

abbrev bad : StoredTelegram
bad = telegram 2000000 "bad" "3/3/3"

abbrev buffered : Buffered (List StoredTelegram)
buffered = record {
  backing = early ∷ [];
  buffer = middle ∷ bad ∷ [];
  max_buffer_size = 3;
  writes_allowed = true;
  closing = false;
  initialized = true;
  flush_task = false;
  buffer_full_warned = false;
}

-- The bad telegram is dropped, the good one written, and the one that arrives is kept.
flushed :
    flush_locked log_backend true ((stored late ∷ []) ∷ []) buffered
    ≡ (ok tt, record buffered { backing = early ∷ middle ∷ []; buffer = late ∷ [] })
unfolding flush_locked
flushed = refl

-- The methods beside `store_many`, which nothing here calls.
abbrev others : OtherMethods SqlBacking
others = record {
  initialize = λ b. (ok tt, b);
  close = λ b. (ok tt, b);
  query = λ q b. ok (record { telegrams = []; total_count = 0; limit_reached = false });
  get_last_unique_telegrams = λ b. ok [];
  get_stats = λ b. ok no_stats;
  begin_backup = λ b. (ok tt, b);
  end_backup = λ b. (ok tt, b);
  optimize = λ b. (ok tt, b);
  clear = λ b. (ok tt, b);
  evict_older_than = λ cutoff dry_run b. (ok 0, b);
  retention_cutoff = λ now b. none;
}

-- A SQLite file whose database refuses the batch, takes its first telegram and refuses its second.
abbrev new_file : SqlBacking
new_file = record {
  store = empty_store sqlite none;
  answers = failed (fresh data_error) 0 ∷ committed ∷ failed (fresh data_error) 0 ∷ [];
}

abbrev over_file : Buffered SqlBacking
over_file = record {
  backing = new_file;
  buffer = middle ∷ bad ∷ [];
  max_buffer_size = 3;
  writes_allowed = true;
  closing = false;
  initialized = true;
  flush_task = false;
  buffer_full_warned = false;
}

abbrev arriving : List (List Arrival)
arriving = (stored late ∷ []) ∷ []

-- Only the refused telegram is dropped, and the one that arrives is in the buffer.
dropped-bad : dropped (sql_backend platform others) arriving over_file ≡ bad ∷ []
unfolding dropped Write.store_many data_error_cause
dropped-bad = refl

buffer_then :
    (flush_locked (sql_backend platform others) true arriving over_file).1.buffer ≡ late ∷ []
unfolding flush_locked Write.store_many
buffer_then = refl

new_file-SqlHolds : SqlHolds platform new_file []
new_file-SqlHolds = (none, [], (refl, refl, empty_store-IsSound sqlite none))

flush_locked-Kept_example :
    (vs : List StoredTelegram) × SqlHolds platform
      (flush_locked (sql_backend platform others) true arriving over_file).1.backing
      vs
    × ((u : StoredTelegram)
        → Kept (sql_backend platform others) (sql_journal platform others) [] over_file [] u
        → Kept
            (sql_backend platform others)
            (sql_journal platform others)
            vs
            (flush_locked (sql_backend platform others) true arriving over_file).1
            (dropped (sql_backend platform others) arriving over_file)
            u)
flush_locked-Kept_example =
    flush_locked-Kept (sql_backend platform others) (sql_journal platform others) true arriving []
      over_file (omega arith) new_file-SqlHolds

abbrev calls : List Call
calls = store_call late ∷ store_call early ∷ flush_call [] ∷ store_call middle ∷ []

IsBounded-buffered : IsBounded 3 buffered
IsBounded-buffered = record { limit = refl; fits = omega arith }

perform_all-IsBounded_example : IsBounded 3 (perform_all log_backend buffered calls)
perform_all-IsBounded_example =
    perform_all-IsBounded log_backend 3 (omega arith) buffered calls IsBounded-buffered

abbrev backing_up : Buffered (List StoredTelegram)
backing_up = record buffered { writes_allowed = false }

perform_all-SameBacking_example : SameBacking backing_up (perform_all log_backend backing_up calls)
perform_all-SameBacking_example =
    perform_all-SameBacking log_backend backing_up calls refl (tt, (tt, (tt, (tt, tt))))

-- The error of a driver that SQLAlchemy's error links to, in the library's wrapper.
abbrev failure : PyException
failure = raised_from knx_telegram_store_exception (raised_from driver_error (fresh data_error))

failure_found : data_error_cause failure ≡ some (fresh data_error)
unfolding data_error_cause
failure_found = refl

data_error_cause-Searched_example : Searched (λ c. Within c failure) (data_error_cause failure)
data_error_cause-Searched_example = data_error_cause-Searched failure

query-flush_first_example :
    (Calls.query memory_backend from_first true
      ((stored early ∷ []) ∷ [])
      (running memory (late ∷ []) 3 true false false)).0
    ≡ Memory.query (Memory.store_many memory (late ∷ [])) from_first
query-flush_first_example =
    query-flush_first memory (late ∷ []) 3 true false false from_first ((stored early ∷ []) ∷ [])
