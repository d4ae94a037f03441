-- ===== src/Lookup.antt =====
-- src/knx_telegram_store/lookup.py: the cache of the ids of the string_lookup table. A table is its
-- rows in the order of insertion, with the id that the next row gets.
pub mod Pairs
pub mod Inserted
pub mod Resolved
use knx_telegram_store.Prelude.{
  ℕ, suc, Bool, true, false, not, ◌||◌, List, [], ◌∷◌, ◌++◌, Option, none, some, if◌then◌else◌,
  is_nonempty,
}
use knx_telegram_store.Prelude.Keep.{keep}
use Pairs.{Pair, same_pair, Ids, find_id, put_id, update}

pub data Dialect : Type 0 where
  postgresql : Dialect
  sqlite : Dialect
  other_dialect : Dialect

-- `category` and `value` of a row are unique together.
pub record LookupTable : Type 0 where
  pub rows : Ids
  pub next_id : ℕ

pub record LookupCache : Type 0 where
  pub cache : Ids
  pub initialized : Bool

-- `LookupCache()`
abbrev pub new_cache : LookupCache
new_cache = record { cache = []; initialized = false }

unfoldable pub warm : LookupCache → LookupTable → LookupCache
unfolding update
warm c t = record { cache = update c.cache t.rows; initialized = true }

-- An insertion that meets the row already: PostgreSQL's sequence has given an id away by then.
abbrev pub skip : Dialect → LookupTable → LookupTable
skip postgresql t = record t { next_id = suc t.next_id }
skip sqlite t = t
skip other_dialect t = t

abbrev pub insert_unless : Option ℕ → Dialect → LookupTable → Pair → LookupTable
insert_unless (some i) dialect t p = skip dialect t
insert_unless none dialect t p = record {
  rows = t.rows ++ (p, t.next_id) ∷ [];
  next_id = suc t.next_id;
}

-- `ON CONFLICT DO NOTHING`, `INSERT OR IGNORE`, or a look before the insertion.
unfoldable pub insert_row : Dialect → LookupTable → Pair → LookupTable
unfolding find_id
insert_row dialect t p = insert_unless (find_id p t.rows) dialect t p

unfoldable pub insert_all : Dialect → LookupTable → List Pair → LookupTable
unfolding insert_row
insert_all dialect t [] = t
insert_all dialect t (p ∷ ps) = insert_all dialect (insert_row dialect t p) ps

-- `resolved` and `to_resolve` behind one pair more.
abbrev pub place : Option ℕ → Pair → Ids × List Pair → Ids × List Pair
place (some i) p (resolved, to_resolve) = (put_id p i resolved, to_resolve)
place none p (resolved, to_resolve) = (resolved, to_resolve ++ p ∷ [])

-- The loop over the pairs.
unfoldable pub split : Ids → List Pair → Ids × List Pair → Ids × List Pair
unfolding find_id put_id
split cache [] found = found
split cache (p ∷ ps) found = split cache ps (place (find_id p cache) p found)

abbrev pub listed : List Pair → Pair → Bool
listed [] p = false
listed (q ∷ qs) p = same_pair q p || listed qs p

-- The insertions and the selection of the rows of `to_resolve`.
unfoldable pub create : Dialect → LookupTable → Ids × List Pair → Ids × LookupTable
unfolding insert_all update
create dialect t (resolved, to_resolve) =
    let t' = insert_all dialect t to_resolve in
    if not (is_nonempty to_resolve)
    then (resolved, t)
    else (update resolved (keep (λ row. listed to_resolve row.0) t'.rows), t')

unfoldable pub get_or_create_ids :
    Dialect → LookupCache → LookupTable → List Pair → Ids × LookupTable
unfolding split create
get_or_create_ids dialect c t pairs = create dialect t (split c.cache pairs ([], []))

unfoldable pub publish : LookupCache → Ids → LookupCache
unfolding update
publish c resolved = record c { cache = update c.cache resolved }
