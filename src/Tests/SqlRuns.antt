-- ===== src/Tests/SqlRuns.antt =====
-- A SQL store on an empty database, with a platform that walks sets as lists and sorts stably.
use knx_telegram_store.Prelude.{
  ℕ, Bool, true, false, List, [], ◌∷◌, map, none, some, ◌≡◌, refl, arith, length, ◌+◌, string_eq,
}
use knx_telegram_store.Prelude.Int.{pos}
use knx_telegram_store.Prelude.Sorting.{sort, sort-IsSorted}
use knx_telegram_store.Prelude.Reorder.{sort-Reordered}
use knx_telegram_store.Prelude.Newest.{IsSummary, put_all}
use knx_telegram_store.Exceptions.{
  PyException, ok, raise, fresh, driver_error, raised_from, knx_telegram_store_exception,
}
use knx_telegram_store.Model.{StoredTelegram, array, list_payload}
use knx_telegram_store.Store.{StoreStats}
use knx_telegram_store.Memory.Stats.{Reports}
use knx_telegram_store.Lookup.{sqlite}
use knx_telegram_store.Sql.{Row, SqlStore, Platform, row_order}
use knx_telegram_store.Sql.Write.{
  Answer, committed, failed, rolled_back, store_many, evict_older_than,
}
use knx_telegram_store.Sql.Calls.{
  SqlCall, store_call, store_many_call, evict_older_than_call, clear_call, perform, perform_all,
  telegrams_after_all,
}
use knx_telegram_store.Sql.Sound.{IsSound, as_read}
use knx_telegram_store.Sql.Insert.{store_many-IsSound}
use knx_telegram_store.Sql.History.{perform_all-IsSound}
use knx_telegram_store.Sql.Atomic.{perform-Atomic, perform-read_only}
use knx_telegram_store.Sql.Select.{PageResult, query}
use knx_telegram_store.Sql.Reads.{get_stats, count, get_last_unique_telegrams}
use knx_telegram_store.Sql.Chosen.{FitsTimedelta}
use knx_telegram_store.Sql.Page.{Answers, query-Answers}
use knx_telegram_store.Sql.Recall.{
  empty_store, empty_store-IsSound, query-telegrams_after_all, get_last_unique_telegrams-IsSummary,
  get_stats-Reports_sql, evict_older_than-counts,
}
use knx_telegram_store.Tests.Samples.{early, middle, late, samples, from_first, with_context}

pub row_order_total : (d : Bool) (a b : Row) → row_order d a b ≡ false → row_order d b a ≡ true
row_order_total true a b h = ground arith
row_order_total false a b h = ground arith

pub row_order_trans :
    (d : Bool) (a b c : Row)
    → row_order d a b ≡ true
    → row_order d b c ≡ true
    → row_order d a c ≡ true
row_order_trans true a b c h k = ground arith
row_order_trans false a b c h k = ground arith

abbrev pub platform : Platform
platform = record {
  iterate = λ ps. ps;
  iterate-In = λ p ps m. m;
  order_by = λ d rows. sort (row_order d) rows;
  order_by-Reordered = λ d rows. sort-Reordered (row_order d) rows;
  order_by-IsSorted =
      λ d rows. sort-IsSorted (row_order d) (row_order_total d) (row_order_trans d) rows;
}

abbrev pub new_store : SqlStore
new_store = empty_store sqlite (some 30)

abbrev failure : PyException
failure = fresh driver_error

-- Two stores, one of them refused, and an eviction.
abbrev calls : List (Answer × SqlCall)
calls =
    (committed, store_many_call samples)
    ∷ (failed failure 2, store_call early)
    ∷ (committed, evict_older_than_call 1200000 false)
    ∷ []

abbrev pub filled : SqlStore
filled = perform_all platform new_store ((committed, store_many_call samples) ∷ [])

filled-IsSound : IsSound filled samples samples
filled-IsSound =
    perform_all-IsSound platform new_store ((committed, store_many_call samples) ∷ []) [] [] refl
      (empty_store-IsSound sqlite (some 30))

telegrams_after_calls : telegrams_after_all (some 30) calls [] ≡ middle ∷ late ∷ []
telegrams_after_calls = refl

answer_after_calls :
    query platform none (perform_all platform new_store calls) from_first
    ≡ ok (record { telegrams = some late ∷ []; total_count = 1; limit_reached = false })
unfolding query perform_all sort
answer_after_calls = refl

answer_with_context :
    query platform none filled with_context
    ≡ ok (record {
      telegrams = some late ∷ some middle ∷ some early ∷ [];
      total_count = 3;
      limit_reached = false;
    })
unfolding query perform_all sort
answer_with_context = refl

-- A tuple comes back as a list.
abbrev with_array : StoredTelegram
with_array = record early { payload = some (array (pos 12 ∷ pos 154 ∷ [])) }

array_read_as_list :
    get_last_unique_telegrams none
      (perform_all platform new_store ((committed, store_call with_array) ∷ []))
    ≡ ok (record early { payload = some (list_payload (pos 12 ∷ pos 154 ∷ [])) } ∷ [])
unfolding get_last_unique_telegrams perform_all put_all
array_read_as_list = refl

latest_after_calls :
    get_last_unique_telegrams none (perform_all platform new_store calls) ≡ ok (late ∷ middle ∷ [])
unfolding get_last_unique_telegrams perform_all put_all
latest_after_calls = refl

refused :
    (perform platform (failed failure 2) new_store (store_call early)).0
    ≡ raise (raised_from knx_telegram_store_exception failure)
unfolding perform
refused = refl

zero_fits : FitsTimedelta (pos 0)
zero_fits = record { above = omega arith; below = omega arith }

second_fits : FitsTimedelta (pos 1000)
second_fits = record { above = omega arith; below = omega arith }

query-telegrams_after_all_example :
    (r : PageResult) × (query platform none
        (perform_all platform (empty_store sqlite (some 30)) calls)
        with_context
      ≡ ok r)
    × Answers with_context (telegrams_after_all (some 30) calls []) r
query-telegrams_after_all_example =
    query-telegrams_after_all platform sqlite (some 30) calls with_context zero_fits second_fits

query-Answers_example :
    (r : PageResult) × (query platform none filled with_context ≡ ok r)
    × Answers with_context samples r
query-Answers_example =
    query-Answers platform filled with_context samples samples filled-IsSound zero_fits second_fits

store_many-IsSound_example :
    ((store_many platform committed samples new_store).0 ≡ ok tt)
    × IsSound (store_many platform committed samples new_store).1 samples samples
store_many-IsSound_example =
    store_many-IsSound platform new_store [] [] samples refl (empty_store-IsSound sqlite (some 30))

perform_all-IsSound_example :
    IsSound (perform_all platform new_store calls) (middle ∷ late ∷ []) samples
perform_all-IsSound_example =
    perform_all-IsSound platform new_store calls [] [] refl (empty_store-IsSound sqlite (some 30))

perform-Atomic_example :
    (n : ℕ) × ((perform platform (failed failure 2) new_store (store_call early)).1
      ≡ rolled_back n new_store)
perform-Atomic_example =
    perform-Atomic platform (failed failure 2) new_store (store_call early)
      (raised_from knx_telegram_store_exception failure) refused

abbrev read_only_store : SqlStore
read_only_store = record filled { read_only = true }

perform-read_only_example :
    (perform platform committed read_only_store clear_call).1 ≡ read_only_store
perform-read_only_example = perform-read_only platform committed read_only_store clear_call refl

get_last_unique_telegrams-IsSummary_example :
    (ts : List StoredTelegram) × (get_last_unique_telegrams none
        (perform_all platform (empty_store sqlite (some 30)) calls)
      ≡ ok (map as_read ts))
    × IsSummary
        (λ (t : StoredTelegram). t.destination)
        (λ (t : StoredTelegram). t.timestamp)
        samples
        ts
get_last_unique_telegrams-IsSummary_example =
    get_last_unique_telegrams-IsSummary platform sqlite (some 30) calls

get_stats-Reports_sql_example :
    (stats : StoreStats) × (get_stats "sqlite" none filled ≡ ok stats)
    × (count none filled ≡ ok stats.telegram_count)
    × (stats.telegram_count ≡ 3)
    × Reports samples stats.oldest_timestamp stats.newest_timestamp
get_stats-Reports_sql_example = get_stats-Reports_sql "sqlite" filled samples samples filled-IsSound

pub filled_open : filled.read_only ≡ false
unfolding perform_all
filled_open = refl

evict_older_than-counts_example :
    (n : ℕ) × ((evict_older_than committed 1200000 true filled).0 ≡ ok n)
    × (n + length (evict_older_than committed 1200000 false filled).1.database.telegrams
        ≡ length filled.database.telegrams)
    × ((evict_older_than committed 1200000 true filled).1 ≡ filled)
evict_older_than-counts_example = evict_older_than-counts filled 1200000 true filled_open
