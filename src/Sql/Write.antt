-- ===== src/Sql/Write.antt =====
-- The methods of `BaseSQLStore` that write, and `initialize`. What the database answers to a
-- transaction is given: that it commits, or what it raises, which rolls the transaction back.
use knx_telegram_store.Prelude.{
  ℕ, ◌*◌, ◌+◌, ◌-◌, Bool, not, List, [], ◌∷◌, ◌++◌, Option, none, some, if◌then◌else◌, is_nonempty,
  ltb, length, nat_eq,
}
use knx_telegram_store.Prelude.Keep.{keep}
use knx_telegram_store.Prelude.Newest.{put_all}
use knx_telegram_store.Exceptions.{
  PyException, Result, ok, raise, fresh, knx_telegram_store_exception, ◌>>=◌,
}
use knx_telegram_store.Model.{Time, StoredTelegram}
use knx_telegram_store.Store.{wrap_store_errors}
use knx_telegram_store.Memory.Times.{minus}
use knx_telegram_store.Prelude.Int.{pos}
use knx_telegram_store.Lookup.{
  Dialect, postgresql, sqlite, other_dialect, LookupTable, get_or_create_ids, publish,
}
use knx_telegram_store.Lookup.Pairs.{Ids}
use knx_telegram_store.Sql.{Row, SqlStore, Platform}
use knx_telegram_store.Sql.Encode.{all_pairs, encode}

-- What a method that writes gives: its result, and the store after it.
abbrev pub Outcome : Type 0 → Type 0
Outcome A = Result A × SqlStore

-- `_ensure_writable`, in front of a method.
abbrev pub ensure_writable : {A : Type 0} → SqlStore → Outcome A → Outcome A
ensure_writable s rest =
    if s.read_only then (raise (fresh knx_telegram_store_exception), s) else rest

abbrev pub wrapped : {A : Type 0} → Outcome A → Outcome A
wrapped (r, s) = (wrap_store_errors r, s)

-- How a transaction ends: it commits, or it raises when so many ids have been drawn for string_lookup.
pub data Answer : Type 0 where
  committed : Answer
  failed : PyException → ℕ → Answer

-- A rollback does not give back what PostgreSQL's sequence has given away.
abbrev pub drawn : Dialect → ℕ → LookupTable → LookupTable
drawn postgresql n t = record t { next_id = t.next_id + n }
drawn sqlite n t = t
drawn other_dialect n t = t

abbrev pub rolled_back : ℕ → SqlStore → SqlStore
rolled_back n s = record s {
  database = record (s.database) { string_lookup = drawn s.dialect n s.database.string_lookup };
}

-- The end of `async with self.engine.begin()`.
abbrev pub commit : {A : Type 0} → Answer → SqlStore → A → SqlStore → Outcome A
commit committed s a done = (ok a, done)
commit (failed e n) s a done = (raise e, rolled_back n s)

unfoldable pub encode_all : Ids → List StoredTelegram → Result (List Row)
unfolding encode
encode_all ids [] = ok []
encode_all ids (t ∷ ts) = do row ← encode ids t; rows ← encode_all ids ts; ok (row ∷ rows)

-- The loop that leaves the latest row of the batch for each destination, and the upsert with
-- `ON CONFLICT (destination_id) DO UPDATE ... WHERE excluded.timestamp > timestamp` for each row:
-- both take a row for a new destination or in place of an older row of its destination.
abbrev pub upsert_all : List Row → List Row → List Row
upsert_all = put_all (λ (r : Row). r.destination_id) (λ (r : Row). r.timestamp)

abbrev pub latest_per_destination : List Row → List Row
latest_per_destination values = upsert_all [] values

-- The store after the transaction: the rows appended, the summaries updated, and then the ids
-- published to the cache.
abbrev pub inserted : SqlStore → Ids → LookupTable → List Row → SqlStore
inserted s ids table values = record s {
  lookup_cache = publish s.lookup_cache ids;
  database = record (s.database) {
    string_lookup = table;
    telegrams = s.database.telegrams ++ values;
    last_ga_telegrams = upsert_all s.database.last_ga_telegrams (latest_per_destination values);
  };
}

abbrev pub with_values : SqlStore → Answer → Ids → LookupTable → Result (List Row) → Outcome Unit
with_values s answer ids table (raise e) =
    (raise e, rolled_back (table.next_id - s.database.string_lookup.next_id) s)
with_values s answer ids table (ok values) = commit answer s tt (inserted s ids table values)

module _ (platform : Platform) where
  -- The body of `store_many` behind its guards.
  unfoldable pub write_batch : Answer → List StoredTelegram → SqlStore → Outcome Unit
  unfolding encode_all get_or_create_ids publish
  write_batch answer telegrams s =
      let (ids, table) =
        get_or_create_ids s.dialect s.lookup_cache s.database.string_lookup
          (platform.iterate (all_pairs telegrams)) in
      with_values s answer ids table (encode_all ids telegrams)

  unfoldable pub store_many : Answer → List StoredTelegram → SqlStore → Outcome Unit
  unfolding write_batch wrap_store_errors
  store_many answer telegrams s = wrapped (
      ensure_writable s
        (if not (is_nonempty telegrams) then (ok tt, s) else write_batch answer telegrams s))

  unfoldable pub store : Answer → StoredTelegram → SqlStore → Outcome Unit
  unfolding store_many wrap_store_errors
  store answer t s = wrapped (store_many answer (t ∷ []) s)

-- `timestamp < cutoff`
abbrev pub is_older : Time → Row → Bool
is_older cutoff r = ltb r.timestamp cutoff

-- The store without the rows that the eviction deletes.
abbrev pub evicted : Time → SqlStore → SqlStore
evicted cutoff s = record s {
  database = record (s.database) {
    telegrams = keep (λ r. not (is_older cutoff r)) s.database.telegrams;
  };
}

-- `dry_run` only counts.
abbrev pub evict_body : Answer → Time → Bool → SqlStore → Outcome ℕ
evict_body answer cutoff dry_run s =
    let older = length (keep (is_older cutoff) s.database.telegrams) in
    if dry_run then commit answer s older s else commit answer s older (evicted cutoff s)

unfoldable pub evict_older_than : Answer → Time → Bool → SqlStore → Outcome ℕ
unfolding wrap_store_errors
evict_older_than answer cutoff dry_run s =
    wrapped (ensure_writable s (evict_body answer cutoff dry_run s))

-- A day in microseconds.
abbrev pub day : ℕ
day = 86400000000

unfoldable pub evict_before : Answer → Result Time → Bool → SqlStore → Outcome ℕ
unfolding evict_older_than
evict_before answer (raise e) dry_run s = (raise e, s)
evict_before answer (ok cutoff) dry_run s = evict_older_than answer cutoff dry_run s

unfoldable pub expire : Answer → Option ℕ → Time → Bool → SqlStore → Outcome ℕ
unfolding evict_before minus
expire answer none now dry_run s = (ok 0, s)
expire answer (some days) now dry_run s =
    evict_before answer (minus now (pos (days * day))) dry_run s

-- `now` is what the clock shows.
unfoldable pub evict_expired : Answer → Time → Bool → SqlStore → Outcome ℕ
unfolding expire wrap_store_errors
evict_expired answer now dry_run s = wrapped (expire answer s.retention_days now dry_run s)

abbrev pub emptied : SqlStore → SqlStore
emptied s = record s { database = record (s.database) { telegrams = []; last_ga_telegrams = [] } }

unfoldable pub clear : Answer → SqlStore → Outcome Unit
unfolding wrap_store_errors
clear answer s = wrapped (ensure_writable s (commit answer s tt (emptied s)))
