-- ===== src/Tests/MemoryRuns.antt =====
-- The memory store on three telegrams.
use knx_telegram_store.Prelude.{
  true, false, List, [], ◌∷◌, some, ◌≡◌, refl, arith, length, In, nat_eq, ◌↔◌,
}
use knx_telegram_store.Prelude.Int.{pos}
use knx_telegram_store.Prelude.Keep.{keep}
use knx_telegram_store.Prelude.Slices.{take_last}
use knx_telegram_store.Prelude.Sorting.{IsSorted}
use knx_telegram_store.Exceptions.{
  ok, raise, fresh, overflow_error, type_error, raised_from, knx_telegram_store_exception,
}
use knx_telegram_store.Model.{naive, StoredTelegram}
use knx_telegram_store.Query.{TelegramQuery, default_query}
use knx_telegram_store.Query.Matching.{matches}
use knx_telegram_store.Memory.{
  MemoryStore, init, query, paginate, get_stats, get_last_unique_telegrams,
}
use knx_telegram_store.Memory.Select.{apply_filters, select, in_order}
use knx_telegram_store.Memory.Latest.{latest_of_each}
use knx_telegram_store.Memory.Filters.{apply_filters-keep}
use knx_telegram_store.Memory.Window.{select-WithinWindow, HasPivot}
use knx_telegram_store.Memory.Order.{query-Selects, query-IsSorted, Selects}
use knx_telegram_store.Memory.Pages.{all_pages, all_pages-select}
use knx_telegram_store.Memory.Newest.{latest_of_each-IsLatest, IsLatest}
use knx_telegram_store.Memory.Contents.{
  Write, store_call, store_many_call, clear_call, write_all, log_of, write_all-take_last,
}
use knx_telegram_store.Memory.Overflow.{Raised, query-overflow}
use knx_telegram_store.Memory.Stats.{get_stats-Reports, Reports}
use knx_telegram_store.Tests.Samples.{
  early, middle, late, samples, memory, from_first, with_context,
}

query_from_first :
    query memory from_first
    ≡ ok (record { telegrams = late ∷ early ∷ []; total_count = 2; limit_reached = false })
unfolding query
query_from_first = refl

select-with_context : select samples with_context ≡ ok (late ∷ middle ∷ early ∷ [])
unfolding select
select-with_context = refl

stats_of_memory : (get_stats memory).newest_timestamp ≡ some 9000000
unfolding get_stats
stats_of_memory = refl

last_of_each : get_last_unique_telegrams memory ≡ late ∷ middle ∷ []
unfolding get_last_unique_telegrams
last_of_each = refl

apply_filters-keep_example :
    apply_filters from_first samples ≡ ok (keep (matches from_first) samples)
apply_filters-keep_example = apply_filters-keep from_first samples (tt, tt)

select-WithinWindow_example :
    In middle (late ∷ middle ∷ early ∷ [])
    ↔ (In middle samples × HasPivot with_context samples middle)
select-WithinWindow_example =
    select-WithinWindow samples (late ∷ middle ∷ early ∷ []) with_context middle refl
      select-with_context

query-Selects_example :
    (results : List StoredTelegram) × (query memory from_first ≡ ok (paginate from_first results))
    × Selects from_first samples results
query-Selects_example = query-Selects memory from_first refl (tt, tt)

query-IsSorted_example : IsSorted (in_order true) (late ∷ early ∷ [])
query-IsSorted_example =
    query-IsSorted memory from_first
      (record { telegrams = late ∷ early ∷ []; total_count = 2; limit_reached = false })
      query_from_first

all_pages-select_example : all_pages 4 memory with_context 0 1 ≡ some (late ∷ middle ∷ early ∷ [])
all_pages-select_example =
    all_pages-select memory with_context (late ∷ middle ∷ early ∷ []) 1 select-with_context
      (omega arith) 4 0 (omega arith)

latest_of_each-IsLatest_example : IsLatest samples (latest_of_each samples)
latest_of_each-IsLatest_example = latest_of_each-IsLatest samples

abbrev new_memory : MemoryStore
new_memory = record { max_telegrams = 2; telegrams = [] }

init_two : init (pos 2) ≡ ok new_memory
unfolding init
init_two = refl

abbrev writes : List Write
writes = store_call late ∷ clear_call ∷ store_many_call (early ∷ middle ∷ []) ∷ store_call late ∷ []

write_all-take_last_example :
    (write_all new_memory writes).telegrams ≡ take_last 2 (log_of [] writes)
write_all-take_last_example = write_all-take_last 2 new_memory writes init_two

abbrev overflowing : TelegramQuery
overflowing = record default_query { delta_before_ms = pos 100000000000000000000 }

query_overflowing :
    query memory overflowing
    ≡ raise (raised_from knx_telegram_store_exception (fresh overflow_error))
unfolding query
query_overflowing = refl

-- A naive start raises where a telegram is compared with it, and only there.
abbrev since_naive : TelegramQuery
since_naive = record default_query { start_time = some (naive 1200000) }

query_since_naive :
    query memory since_naive ≡ raise (raised_from knx_telegram_store_exception (fresh type_error))
unfolding query
query_since_naive = refl

query_since_naive_empty :
    query (record memory { telegrams = [] }) since_naive
    ≡ ok (record { telegrams = []; total_count = 0; limit_reached = false })
unfolding query
query_since_naive_empty = refl

query-overflow_example :
    Raised since_naive (raised_from knx_telegram_store_exception (fresh type_error))
query-overflow_example =
    query-overflow memory since_naive (raised_from knx_telegram_store_exception (fresh type_error))
      query_since_naive

get_stats-Reports_example :
    ((get_stats memory).telegram_count ≡ length samples)
    × Reports samples (get_stats memory).oldest_timestamp (get_stats memory).newest_timestamp
get_stats-Reports_example = get_stats-Reports memory
