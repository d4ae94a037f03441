-- ===== src/Tests/LookupRuns.antt =====
-- The lookup cache on a table with one row.
use mathlib.Core.Path.{subst}
use knx_telegram_store.Prelude.{ℕ, true, [], ◌∷◌, some, ◌≡◌, refl, In, inl, inr}
use knx_telegram_store.Lookup.{
  sqlite, LookupTable, LookupCache, insert_all, get_or_create_ids, publish,
}
use knx_telegram_store.Lookup.Pairs.{Pair, find_id, find-nothing}
use knx_telegram_store.Lookup.Inserted.{IsKeyed, insert_all-Extends}
use knx_telegram_store.Lookup.Resolved.{
  Entries, Resolves, get_or_create_ids-Resolves, publish-Entries,
}

abbrev sender : Pair
sender = ("source", "1.1.1")

abbrev receiver : Pair
receiver = ("destination", "1/1/1")

abbrev empty : LookupTable
empty = record { rows = []; next_id = 1 }

empty-IsKeyed : IsKeyed empty
empty-IsKeyed = record {
  one_row = λ p i m. absurd m;
  used = λ p i h. absurd (cc (find-nothing p, h));
  one_pair = λ p q i h k. absurd (cc (find-nothing p, h));
}

abbrev table : LookupTable
table = insert_all sqlite empty (sender ∷ [])

table-IsKeyed : IsKeyed table
table-IsKeyed = (insert_all-Extends sqlite empty (sender ∷ []) empty-IsKeyed).0.keyed

abbrev cache : LookupCache
cache = record { cache = (sender, 1) ∷ []; initialized = true }

sender_row : find_id sender table.rows ≡ some 1
unfolding insert_all
sender_row = refl

cache-Entries : Entries cache.cache table.rows
cache-Entries p i (inl same) =
    subst (λ (r : Pair × ℕ). find_id r.0 table.rows ≡ some r.1) same sender_row
cache-Entries p i (inr m) = absurd m

resolved :
    (get_or_create_ids sqlite cache table (receiver ∷ sender ∷ [])).0
    ≡ (sender, 1) ∷ (receiver, 2) ∷ []
unfolding get_or_create_ids insert_all
resolved = refl

get_or_create_ids-Resolves_example :
    Resolves
      (λ p. In p (receiver ∷ sender ∷ []))
      table
      (get_or_create_ids sqlite cache table (receiver ∷ sender ∷ []))
get_or_create_ids-Resolves_example =
    get_or_create_ids-Resolves sqlite cache table (receiver ∷ sender ∷ []) table-IsKeyed
      cache-Entries

publish-Entries_example :
    Entries
      (publish cache (get_or_create_ids sqlite cache table (receiver ∷ [])).0).cache
      (get_or_create_ids sqlite cache table (receiver ∷ [])).1.rows
publish-Entries_example =
    publish-Entries sqlite cache table (receiver ∷ []) table-IsKeyed cache-Entries
