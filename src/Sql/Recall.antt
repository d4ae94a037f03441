-- ===== src/Sql/Recall.antt =====
-- What the reading methods return on a store whose tables stand for telegrams, and what any calls
-- before them make of it.
use mathlib.Core.Path.{subst}
use knx_telegram_store.Prelude.{
  ℕ, ◌+◌, Bool, true, false, not, String, List, [], ◌∷◌, map, Option, none, ◌≡◌, refl, ap, sym, ◌∙◌,
  length, string_eq, if_ind, if_false, Bool-cases, inl, inr, arith,
}
use knx_telegram_store.Prelude.Keep.{keep}
use knx_telegram_store.Prelude.Reorder.{Pairwise, Pairwise-length}
use knx_telegram_store.Prelude.Newest.{IsSummary, IsSummary-empty}
use knx_telegram_store.Exceptions.{ok, raise, fresh, knx_telegram_store_exception}
use knx_telegram_store.Model.{Time, StoredTelegram}
use knx_telegram_store.Query.{TelegramQuery}
use knx_telegram_store.Store.{wrap_store_errors, StoreStats}
use knx_telegram_store.Memory.{oldest, newest}
use knx_telegram_store.Memory.Stats.{Reports, oldest-newest-Reports, timestamps}
use knx_telegram_store.Lookup.{Dialect, LookupTable, new_cache}
use knx_telegram_store.Lookup.Pairs.{Ids, find-nothing}
use knx_telegram_store.Lookup.Inserted.{IsKeyed}
use knx_telegram_store.Sql.{Row, SqlStore, Platform}
use knx_telegram_store.Sql.Encode.{decode}
use knx_telegram_store.Sql.Sound.{Encodes, IsSound, as_read, decode-Encodes}
use knx_telegram_store.Sql.Write.{
  Answer, committed, Outcome, evict_older_than, evict_body, is_older, ensure_writable, wrapped,
}
use knx_telegram_store.Sql.Calls.{SqlCall, perform_all, telegrams_after_all, log_after_all}
use knx_telegram_store.Sql.History.{perform_all-IsSound}
use knx_telegram_store.Sql.Select.{PageResult, query}
use knx_telegram_store.Sql.Chosen.{FitsTimedelta}
use knx_telegram_store.Sql.Page.{Answers, query-Answers}
use knx_telegram_store.Sql.Reads.{count, get_stats, joined, get_last_unique_telegrams}

joined-decode :
    (t : LookupTable) (ts : List StoredTelegram) (rs : List Row)
    → IsKeyed t
    → Pairwise (Encodes t.rows) ts rs
    → joined (map (decode t.rows) rs) ≡ map as_read ts
joined-decode t [] [] keyed h = refl
joined-decode t (u ∷ ts) (r ∷ rs) keyed h =
    ap (λ o. joined (o ∷ map (decode t.rows) rs)) (decode-Encodes t keyed u r h.0)
    ∙ ap (◌∷◌ (as_read u)) (joined-decode t ts rs keyed h.1)
joined-decode t [] (r ∷ rs) keyed h = absurd h
joined-decode t (u ∷ ts) [] keyed h = absurd h

timestamps-Encodes :
    (rows : Ids) (ts : List StoredTelegram) (rs : List Row)
    → Pairwise (Encodes rows) ts rs
    → map (λ (r : Row). r.timestamp) rs ≡ timestamps ts
timestamps-Encodes rows [] [] h = refl
timestamps-Encodes rows (t ∷ ts) (r ∷ rs) h =
    λ i. sym h.0.timestamp i ∷ timestamps-Encodes rows ts rs h.1 i
timestamps-Encodes rows [] (r ∷ rs) h = absurd h
timestamps-Encodes rows (t ∷ ts) [] h = absurd h

-- On a store whose tables stand for telegrams, the statistics that the database answers count them, as
-- `count` does, and report the least and the greatest of their timestamps, or none if there are none.
pub get_stats-Reports_sql :
    (backend : String) (s : SqlStore) (ts log : List StoredTelegram)
    → IsSound s ts log
    → (stats : StoreStats) × (get_stats backend none s ≡ ok stats)
      × (count none s ≡ ok stats.telegram_count)
      × (stats.telegram_count ≡ length ts)
      × Reports ts stats.oldest_timestamp stats.newest_timestamp
unfolding get_stats count wrap_store_errors
get_stats-Reports_sql backend s ts log sound =
    let same =
      timestamps-Encodes s.database.string_lookup.rows ts s.database.telegrams sound.telegrams in
    let xs = map (λ (r : Row). r.timestamp) s.database.telegrams in
    (
      record {
        telegram_count = length s.database.telegrams;
        oldest_timestamp = oldest xs;
        newest_timestamp = newest xs;
        size_bytes = none;
        backend = backend;
        retention_days = s.retention_days;
      },
      refl,
      refl,
      sym (
          Pairwise-length (Encodes s.database.string_lookup.rows) ts s.database.telegrams
            sound.telegrams),
      subst (λ ys. Reports ts (oldest ys) (newest ys)) (sym same) (oldest-newest-Reports ts),
    )

get_last_unique_telegrams-summary :
    (s : SqlStore) (ts log : List StoredTelegram) (sound : IsSound s ts log)
    → get_last_unique_telegrams none s ≡ ok (map as_read sound.summary)
unfolding get_last_unique_telegrams wrap_store_errors
get_last_unique_telegrams-summary s ts log sound = ap ok (
    joined-decode s.database.string_lookup sound.summary s.database.last_ga_telegrams sound.keyed
      sound.summaries)

-- A new store on an empty database.
abbrev pub empty_store : Dialect → Option ℕ → SqlStore
empty_store dialect retention = record {
  dialect = dialect;
  retention_days = retention;
  read_only = false;
  lookup_cache = new_cache;
  database = record {
    string_lookup = record { rows = []; next_id = 1 };
    telegrams = [];
    last_ga_telegrams = [];
    store_metadata = [];
  };
}

pub empty_store-IsSound :
    (dialect : Dialect) (retention : Option ℕ) → IsSound (empty_store dialect retention) [] []
empty_store-IsSound dialect retention = record {
  keyed = record {
    one_row = λ p i m. absurd m;
    used = λ p i h. absurd (cc (h, find-nothing p));
    one_pair = λ p q i h k. absurd (cc (h, find-nothing p));
  };
  cached = λ p i m. absurd m;
  telegrams = tt;
  summary = [];
  summaries = tt;
  is_summary =
      IsSummary-empty (λ (t : StoredTelegram). t.destination) (λ (t : StoredTelegram). t.timestamp);
}

-- A store that began on an empty database and ran any writing calls, with transactions that commit or
-- fail, returns one telegram for each destination stored since the last committed `clear`: one of the
-- stored telegrams of the destination with no newer one among them, evicted or not. It is returned as
-- it was stored but that a tuple of its payload has become a list.
pub get_last_unique_telegrams-IsSummary :
    (platform : Platform) (dialect : Dialect) (retention : Option ℕ) (cs : List (Answer × SqlCall))
    → (ts : List StoredTelegram) × (get_last_unique_telegrams none
          (perform_all platform (empty_store dialect retention) cs)
        ≡ ok (map as_read ts))
      × IsSummary
          (λ (t : StoredTelegram). t.destination)
          (λ (t : StoredTelegram). t.timestamp)
          (log_after_all cs [])
          ts
get_last_unique_telegrams-IsSummary platform dialect retention cs =
    let s = empty_store dialect retention in
    let sound =
      perform_all-IsSound platform s cs [] [] refl (empty_store-IsSound dialect retention) in
    (
      sound.summary,
      get_last_unique_telegrams-summary (perform_all platform s cs)
          (telegrams_after_all retention cs []) (log_after_all cs []) sound,
      sound.is_summary,
    )

-- A store that began on an empty database and ran any writing calls, with transactions that commit or
-- fail, answers every query whose deltas are in the range of a `timedelta` as the list of telegrams
-- that the committed calls leave does, but that a tuple of a payload has become a list.
pub query-telegrams_after_all :
    (platform : Platform) (dialect : Dialect) (retention : Option ℕ) (cs : List (Answer × SqlCall))
    (q : TelegramQuery)
    → FitsTimedelta q.delta_before_ms
    → FitsTimedelta q.delta_after_ms
    → (r : PageResult) × (query platform none
          (perform_all platform (empty_store dialect retention) cs)
          q
        ≡ ok r)
      × Answers q (telegrams_after_all retention cs []) r
query-telegrams_after_all platform dialect retention cs q before after =
    let s = empty_store dialect retention in
    let sound =
      perform_all-IsSound platform s cs [] [] refl (empty_store-IsSound dialect retention) in
    query-Answers platform (perform_all platform s cs) q (telegrams_after_all retention cs [])
      (log_after_all cs []) sound before after

length-keep :
    {A : Type 0} (p : A → Bool) (xs : List A)
    → length (keep p xs) + length (keep (λ x. not (p x)) xs) ≡ length xs
length-keep p [] = omega arith
length-keep p (x ∷ xs) = elim (Bool-cases (p x)) [
  | inl e ↦ rw e (omega (arith, length-keep p xs))
  | inr e ↦ rw e (omega (arith, length-keep p xs))
]

-- Whether it only counts or deletes, an eviction that the database runs on a writable store returns the
-- number of rows that it deletes when it deletes; a dry run leaves the store as it was.
pub evict_older_than-counts :
    (s : SqlStore) (cutoff : Time) (dry_run : Bool)
    → s.read_only ≡ false
    → (n : ℕ) × ((evict_older_than committed cutoff dry_run s).0 ≡ ok n)
      × (n + length (evict_older_than committed cutoff false s).1.database.telegrams
          ≡ length s.database.telegrams)
      × ((evict_older_than committed cutoff true s).1 ≡ s)
unfolding evict_older_than wrap_store_errors
evict_older_than-counts s cutoff dry_run open_for =
    let closed : Outcome ℕ = (raise (fresh knx_telegram_store_exception), s) in
    let runs : (d : Bool)
        → ensure_writable s (evict_body committed cutoff d s) ≡ evict_body committed cutoff d s =
      (λ d. if_false s.read_only closed (evict_body committed cutoff d s) open_for) in
    let older = keep (is_older cutoff) s.database.telegrams in
    (
      length older,
      ap (λ (o : Outcome ℕ). (wrapped o).0) (runs dry_run)
          ∙ if_ind (λ (o : Outcome ℕ). wrap_store_errors o.0 ≡ ok (length older)) dry_run
              (λ _. refl) (λ _. refl),
      subst
          (λ (u : SqlStore).
            length older + length u.database.telegrams ≡ length s.database.telegrams)
          (sym (ap (λ (o : Outcome ℕ). (wrapped o).1) (runs false)))
          (length-keep (is_older cutoff) s.database.telegrams),
      ap (λ (o : Outcome ℕ). (wrapped o).1) (runs true),
    )
