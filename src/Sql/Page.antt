-- ===== src/Sql/Page.antt =====
-- What `BaseSQLStore.query` returns.
use mathlib.Core.List.{Perm}
use knx_telegram_store.Prelude.{
  Bool, true, false, List, [], ◌∷◌, map, none, some, ◌≡◌, refl, ap, sym, ◌∙◌, leb, length,
}
use knx_telegram_store.Prelude.Int.{ℤ, pos, negsuc, ltb_ℤ, ◌+ℤ◌}
use knx_telegram_store.Prelude.Keep.{keep}
use knx_telegram_store.Prelude.Sorting.{IsSorted}
use knx_telegram_store.Prelude.Reorder.{
  Reordered-Perm, Pairwise, Pairwise-keep, Pairwise-take, Pairwise-drop, Pairwise-length,
  Pairwise-Reordered, Pairwise-IsSorted,
}
use knx_telegram_store.Exceptions.{ok}
use knx_telegram_store.Model.{StoredTelegram}
use knx_telegram_store.Query.{TelegramQuery}
use knx_telegram_store.Memory.Select.{in_order}
use knx_telegram_store.Lookup.{LookupTable}
use knx_telegram_store.Lookup.Inserted.{IsKeyed}
use knx_telegram_store.Sql.{Row, SqlStore, Platform, row_order}
use knx_telegram_store.Sql.Encode.{decode}
use knx_telegram_store.Sql.Sound.{Encodes, IsSound, as_read, decode-Encodes}
use knx_telegram_store.Sql.Select.{Condition, offset_by, limit_to, PageResult, page_of, query}
use knx_telegram_store.Sql.Chosen.{chosen, FitsTimedelta}
use knx_telegram_store.Sql.Clause.{where_clause-chosen}

-- The telegrams of a page, as `offset` and `limit` cut it from all results.
abbrev pub page : TelegramQuery → List StoredTelegram → List StoredTelegram
page q results = limit_to q.limit (offset_by q.offset results)

-- A result for a query on a store with the telegrams `ts`.
pub record Answers (q : TelegramQuery) (ts : List StoredTelegram) (r : PageResult) : Type 0 where
  -- All results in the order of the query, of which the page is cut.
  pub results : List StoredTelegram
  pub same_telegrams : Perm results (keep (chosen q ts) ts)
  pub ordered : IsSorted (in_order q.order_descending) results
  -- The telegrams of the page; each is returned with its texts, and with a list for a tuple.
  pub shown : List StoredTelegram
  pub complete : r.telegrams ≡ map (λ t. some (as_read t)) shown
  pub same_page : Perm shown (page q results)
  pub shown_ordered : IsSorted (in_order q.order_descending) shown
  pub total : r.total_count ≡ length (keep (chosen q ts) ts)
  pub more : r.limit_reached ≡ ltb_ℤ (q.offset +ℤ q.limit) (pos (length (keep (chosen q ts) ts)))

module _ (t : LookupTable) (keyed : IsKeyed t) where
  decode-map :
      (ts : List StoredTelegram) (rs : List Row)
      → Pairwise (Encodes t.rows) ts rs
      → map (decode t.rows) rs ≡ map (λ t. some (as_read t)) ts
  decode-map [] [] h = refl
  decode-map (u ∷ ts) (r ∷ rs) h = λ i. decode-Encodes t keyed u r h.0 i ∷ decode-map ts rs h.1 i
  decode-map [] (r ∷ rs) h = absurd h
  decode-map (u ∷ ts) [] h = absurd h

  offset_by-Pairwise :
      (n : ℤ) (ts : List StoredTelegram) (rs : List Row)
      → Pairwise (Encodes t.rows) ts rs
      → Pairwise (Encodes t.rows) (offset_by n ts) (offset_by n rs)
  offset_by-Pairwise (pos n) ts rs h = Pairwise-drop (Encodes t.rows) n ts rs h
  offset_by-Pairwise (negsuc n) ts rs h = h

  limit_to-Pairwise :
      (n : ℤ) (ts : List StoredTelegram) (rs : List Row)
      → Pairwise (Encodes t.rows) ts rs
      → Pairwise (Encodes t.rows) (limit_to n ts) (limit_to n rs)
  limit_to-Pairwise (pos n) ts rs h = Pairwise-take (Encodes t.rows) n ts rs h
  limit_to-Pairwise (negsuc n) ts rs h = h

  row_order-in_order :
      (d : Bool) (x u : StoredTelegram) (y v : Row)
      → Encodes t.rows x y
      → Encodes t.rows u v
      → row_order d y v ≡ true
      → in_order d x u ≡ true
  row_order-in_order true x u y v h k e = (λ i. leb (k.timestamp i) (h.timestamp i)) ∙ e
  row_order-in_order false x u y v h k e = (λ i. leb (h.timestamp i) (k.timestamp i)) ∙ e

  -- `ORDER BY` on rows gives an order of the telegrams.
  order_by-Ordered :
      (p : Platform) (d : Bool) (ts : List StoredTelegram) (rs : List Row)
      → Pairwise (Encodes t.rows) ts rs
      → (us : List StoredTelegram) × Perm us ts
        × IsSorted (in_order d) us
        × Pairwise (Encodes t.rows) us (p.order_by d rs)
  order_by-Ordered p d ts rs h =
      let (us, moved, k) =
        Pairwise-Reordered (Encodes t.rows) (p.order_by d rs) rs (p.order_by-Reordered d rs) ts h in
      (
        us,
        Reordered-Perm us ts moved,
        Pairwise-IsSorted (Encodes t.rows) (in_order d) (row_order d) (row_order-in_order d) us
            (p.order_by d rs) k (p.order_by-IsSorted d rs),
        k,
      )

module _ (platform : Platform) (s : SqlStore) (q : TelegramQuery) (ts log : List StoredTelegram)
    (sound : IsSound s ts log) where
  page_of-Answers :
      (c : Condition)
      → ((t : StoredTelegram) (r : Row)
          → Encodes s.database.string_lookup.rows t r
          → chosen q ts t ≡ c r)
      → Answers q ts (page_of platform s q c)
  unfolding page_of
  page_of-Answers c fits =
      let table = s.database.string_lookup in
      let d = q.order_descending in
      let kept = keep (chosen q ts) ts in
      let selected = keep c s.database.telegrams in
      let related =
        Pairwise-keep (Encodes table.rows) (chosen q ts) c fits ts s.database.telegrams
          sound.telegrams in
      let (results, moved, sorted, k) =
        order_by-Ordered table sound.keyed platform d kept selected related in
      let cut =
        limit_to-Pairwise table sound.keyed q.limit _ _
          (offset_by-Pairwise table sound.keyed q.offset results _ k) in
      let (shown, again, shown_sorted, l) =
        order_by-Ordered table sound.keyed platform d (page q results) _ cut in
      let counted = Pairwise-length (Encodes table.rows) kept selected related in
      record {
        results = results;
        same_telegrams = moved;
        ordered = sorted;
        shown = shown;
        complete = decode-map table sound.keyed shown _ l;
        same_page = again;
        shown_ordered = shown_sorted;
        total = sym counted;
        more = ap (λ n. ltb_ℤ (q.offset +ℤ q.limit) (pos n)) (sym counted);
      }

-- On a store whose tables stand for telegrams, a query whose deltas are in the range of a `timedelta`
-- returns if the database answers. Its result is a page of the telegrams that the query chooses: those
-- that match its filters, or with a context window and a filter those in the window of one that
-- matches. Each chosen telegram is among the results as often as it is stored, the results and the
-- page are in the order asked for, and every telegram has its texts: no row is lost to the joins after
-- the `LIMIT`. A telegram is returned as it was stored but that a tuple of its payload has become a
-- list. The count is that of all chosen telegrams.
pub query-Answers :
    (platform : Platform) (s : SqlStore) (q : TelegramQuery) (ts log : List StoredTelegram)
    → IsSound s ts log
    → FitsTimedelta q.delta_before_ms
    → FitsTimedelta q.delta_after_ms
    → (r : PageResult) × (query platform none s q ≡ ok r) × Answers q ts r
unfolding query
query-Answers platform s q ts log sound before after =
    let (c, e, fits) = where_clause-chosen s q ts log sound before after in
    (page_of platform s q c, rw e refl, page_of-Answers platform s q ts log sound c fits)
