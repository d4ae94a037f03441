-- ===== src/Sql/Startup.antt =====
-- What `initialize` and `needs_migration` of `BaseSQLStore` do: the metadata flags, the declared
-- indexes, and the pass that repairs `last_ga_telegrams`.
use knx_telegram_store.Prelude.{
  ℕ, max, Bool, true, false, not, ◌&&◌, ◌||◌, String, List, [], ◌∷◌, ◌++◌, Option, none, some, ltb,
  is_nonempty, contains, if◌then◌else◌, nat_eq, string_eq, option_eq, ◌==◌,
}
use knx_telegram_store.Prelude.Keep.{keep}
use knx_telegram_store.Exceptions.{PyException, Result, ok}
use knx_telegram_store.Model.{Time}
use knx_telegram_store.Store.{wrap_store_errors}
use knx_telegram_store.Lookup.{warm}
use knx_telegram_store.Sql.{Row, Database, SqlStore}
use knx_telegram_store.Sql.Select.{answered}
use knx_telegram_store.Sql.Write.{Outcome, Answer, wrapped, commit}

abbrev pub Metadata : Type 0
Metadata = List (String × String)

-- `SELECT value FROM store_metadata WHERE key = ...`
unfoldable pub metadata_value : String → Metadata → Option String
metadata_value key [] = none
metadata_value key ((k, v) ∷ rest) =
    let below = metadata_value key rest in if k == key then some v else below

abbrev pub metadata_flag_set : String → Metadata → Bool
metadata_flag_set key m = metadata_value key m == some "true"

unfoldable pub set_metadata_value : String → String → Metadata → Metadata
set_metadata_value key value m = keep (λ entry. not (entry.0 == key)) m ++ (key, value) ∷ []

-- The upsert of a flag, which keeps the place of a row that is there.
unfoldable pub upsert_metadata : String → String → Metadata → Metadata
upsert_metadata key value [] = (key, value) ∷ []
upsert_metadata key value ((k, v) ∷ rest) =
    let below = upsert_metadata key value rest in
    if k == key then (k, value) ∷ rest else (k, v) ∷ below

abbrev pub last_ga_reconciled_key : String
last_ga_reconciled_key = "last_ga_newest_reconciled"

-- The catalogue of the database: its tables, and the names of a table's indexes or `none` where asking
-- for them raises.
pub record Catalogue : Type 0 where
  pub has_table : String → Bool
  pub indexes : String → Option (List String)

abbrev pub indexed_tables : List String
indexed_tables = "telegrams" ∷ "last_ga_telegrams" ∷ "string_lookup" ∷ []

-- The declared names that do not exist.
abbrev pub missing : List String → List String → List String
missing declared existing = keep (λ name. not (contains existing name)) declared

abbrev pub lacks : List String → Option (List String) → Bool
lacks declared none = false
lacks declared (some existing) = is_nonempty (missing declared existing)

abbrev pub any_lacks : (String → List String) → Catalogue → List String → Bool
any_lacks declared c [] = false
any_lacks declared c (t ∷ ts) = lacks (declared t) (c.indexes t) || any_lacks declared c ts

abbrev pub obsolete_indexes : List String
obsolete_indexes = "ix_telegrams_telegramtype_id" ∷ "ix_telegrams_direction_id" ∷ []

-- The indexes of a table after the declared ones are created and the obsolete ones dropped.
abbrev pub ensured : List String → Option (List String) → Option (List String)
ensured declared none = none
ensured declared (some existing) =
    some
      (keep (λ name. not (contains obsolete_indexes name)) (existing ++ missing declared existing))

unfoldable pub ensure_indexes : (String → List String) → Catalogue → Catalogue
ensure_indexes declared c = record c { indexes = λ t. ensured (declared t) (c.indexes t) }

-- `declared` gives the names of the indexes that the model declares for a table.
unfoldable pub pending_startup_work : (String → List String) → Catalogue → Database → Bool
unfolding metadata_value
pending_startup_work declared c db =
    if not (c.has_table "telegrams")
    then false
    else if any_lacks declared c indexed_tables
    then true
    else if not (metadata_flag_set last_ga_reconciled_key db.store_metadata)
        || not (is_nonempty db.last_ga_telegrams)
    then is_nonempty db.telegrams
    else false

unfoldable pub needs_migration :
    (String → List String) → Catalogue → Option PyException → SqlStore → Result Bool
unfolding pending_startup_work wrap_store_errors
needs_migration declared c answer s =
    wrap_store_errors (answered answer (pending_startup_work declared c s.database))

-- `newer_telegram`: some telegram of the row's destination has a later timestamp.
abbrev pub has_newer : List Row → Row → Bool
has_newer [] r = false
has_newer (t ∷ ts) r =
    (t.destination_id == r.destination_id && ltb r.timestamp t.timestamp) || has_newer ts r

abbrev pub later_of : Time → Option Time → Option Time
later_of t none = some t
later_of t (some u) = some (max t u)

-- `func.max(timestamp)` of a destination's group.
unfoldable pub max_timestamp : ℕ → List Row → Option Time
max_timestamp d [] = none
max_timestamp d (r ∷ rs) =
    let rest = max_timestamp d rs in
    if r.destination_id == d then later_of r.timestamp rest else rest

unfoldable pub candidates : List Row → List Row
unfolding max_timestamp
candidates telegrams =
    keep (λ r. max_timestamp r.destination_id telegrams == some r.timestamp) telegrams

-- The candidate of rank 1 of each destination. `before` is the order of the tie breaker, which
-- compares the other columns as the database prints them.
unfoldable pub rank_one : (Row → Row → Bool) → Row → List Row → List Row
rank_one before x [] = x ∷ []
rank_one before x (y ∷ ys) =
    let rest = rank_one before x ys in
    if y.destination_id == x.destination_id
    then (if before x y then x ∷ ys else y ∷ ys)
    else y ∷ rest

unfoldable pub ranked : (Row → Row → Bool) → List Row → List Row → List Row
unfolding rank_one
ranked before chosen [] = chosen
ranked before chosen (x ∷ xs) = ranked before (rank_one before x chosen) xs

abbrev pub has_destination : List Row → ℕ → Bool
has_destination [] d = false
has_destination (r ∷ rs) d = r.destination_id == d || has_destination rs d

-- `INSERT ... ON CONFLICT DO NOTHING`
unfoldable pub insert_missing : List Row → List Row → List Row
insert_missing rows [] = rows
insert_missing rows (x ∷ xs) =
    insert_missing (if has_destination rows x.destination_id then rows else rows ++ x ∷ []) xs

-- The summaries after the pass.
unfoldable pub repaired : (Row → Row → Bool) → List Row → List Row → List Row
unfolding insert_missing ranked candidates
repaired before telegrams summaries =
    insert_missing
      (if is_nonempty summaries
        then keep (λ r. not (has_newer telegrams r)) summaries
        else summaries)
      (ranked before [] (candidates telegrams))

unfoldable pub reconcile : (Row → Row → Bool) → Database → Database
unfolding repaired metadata_value upsert_metadata
reconcile before db =
    if is_nonempty db.last_ga_telegrams
      && metadata_flag_set last_ga_reconciled_key db.store_metadata
    then db
    else record db {
      last_ga_telegrams = repaired before db.telegrams db.last_ga_telegrams;
      store_metadata =
          if metadata_flag_set last_ga_reconciled_key db.store_metadata
          then db.store_metadata
          else upsert_metadata last_ga_reconciled_key "true" db.store_metadata;
    }

-- `initialize`, where the rows of string_lookup can be read: the cache is warmed, and a writable store runs the pass.
unfoldable pub initialize : (Row → Row → Bool) → Answer → SqlStore → Outcome Unit
unfolding reconcile warm wrap_store_errors
initialize before answer s =
    let warmed = record s { lookup_cache = warm s.lookup_cache s.database.string_lookup } in
    wrapped (
      if s.read_only
      then (ok tt, warmed)
      else commit answer warmed tt (record warmed { database = reconcile before s.database }))
