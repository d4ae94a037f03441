-- ===== src/Sql/Insert.antt =====
-- What `store_many` makes of the tables.
use mathlib.Core.Path.{subst}
use mathlib.Core.List.{append-nil}
use knx_telegram_store.Prelude.{
  ℕ, false, List, [], ◌∷◌, ◌++◌, some, ◌≡◌, refl, ap, sym, ◌∙◌, inl, inr, arith, In, In-append,
  ◌==◌, nat_eq, string_eq, if_false, Bool-same,
}
use text.Mathlib.TextEquality.{eq_iff}
use knx_telegram_store.Prelude.Reorder.{Pairwise, Pairwise-append}
use knx_telegram_store.Prelude.Newest.{
  put_all, put_all-Pairwise, put_all-IsSummary, put_all-IsSummary_batch,
}
use knx_telegram_store.Exceptions.{Result, ok, raise, fresh, knx_telegram_store_exception}
use knx_telegram_store.Model.{StoredTelegram}
use knx_telegram_store.Store.{wrap_store_errors}
use knx_telegram_store.Lookup.{LookupTable, get_or_create_ids, publish}
use knx_telegram_store.Lookup.Pairs.{Pair, Ids, find_id}
use knx_telegram_store.Lookup.Inserted.{IsKeyed, Extends, some-same}
use knx_telegram_store.Lookup.Resolved.{
  Entries, find-In, get_or_create_ids-Resolves, publish-Entries,
}
use knx_telegram_store.Sql.{Row, SqlStore, Platform}
use knx_telegram_store.Sql.Encode.{all_pairs, pairs_of}
use knx_telegram_store.Sql.Sound.{Encodes, Pairwise-Agrees, encode-Encodes, IsSound, Resolvable}
use knx_telegram_store.Sql.Write.{
  committed, Outcome, ensure_writable, wrapped, encode_all, upsert_all, latest_per_destination,
  inserted, with_values, write_batch, store_many,
}

encode_all-Encodes :
    (ids rows : Ids) (ts : List StoredTelegram)
    → ((p : Pair) → In p (all_pairs ts) → Resolvable ids rows p)
    → (rs : List Row) × (encode_all ids ts ≡ ok rs) × Pairwise (Encodes rows) ts rs
unfolding encode_all
encode_all-Encodes ids rows [] known = ([], refl, tt)
encode_all-Encodes ids rows (t ∷ ts) known =
    let (r, e, h) =
      encode-Encodes ids rows t
        (λ p m. known p ((In-append p (pairs_of t) (all_pairs ts)).1 (inl m))) in
    let (rs, f, k) =
      encode_all-Encodes ids rows ts
        (λ p m. known p ((In-append p (pairs_of t) (all_pairs ts)).1 (inr m))) in
    (r ∷ rs, rw (e, f) refl, (h, k))

-- Two rows have one destination if and only if their telegrams do.
same_destination :
    (table : LookupTable) (t u : StoredTelegram) (r v : Row)
    → IsKeyed table
    → Encodes table.rows t r
    → Encodes table.rows u v
    → (t.destination == u.destination) ≡ (r.destination_id == v.destination_id)
same_destination table t u r v keyed h k =
    Bool-same (t.destination == u.destination) (r.destination_id == v.destination_id)
      (λ e.
        let same : t.destination ≡ u.destination = (eq_iff t.destination u.destination).0 e in
        let ids : r.destination_id ≡ v.destination_id =
          some-same (ap (λ d. find_id ("destination", d) table.rows) (sym same) ∙ h.destination)
            k.destination in
        ground (arith, ids))
      (λ e.
        let ids : r.destination_id ≡ v.destination_id = ground (arith, e) in
        (eq_iff t.destination u.destination).1 (
          ap (λ (p : Pair). p.1)
            (keyed.one_pair ("destination", t.destination) ("destination", u.destination)
              v.destination_id (h.destination ∙ ap some ids) k.destination)))

upsert_all-Encodes :
    (table : LookupTable) (ds ts : List StoredTelegram) (ls rs : List Row)
    → IsKeyed table
    → Pairwise (Encodes table.rows) ds ls
    → Pairwise (Encodes table.rows) ts rs
    → Pairwise
        (Encodes table.rows)
        (put_all
          (λ (t : StoredTelegram). t.destination)
          (λ (t : StoredTelegram). t.timestamp)
          ds
          ts)
        (upsert_all ls rs)
upsert_all-Encodes table ds ts ls rs keyed h k =
    put_all-Pairwise (λ (t : StoredTelegram). t.destination) (λ (t : StoredTelegram). t.timestamp)
      (λ (r : Row). r.destination_id) (λ (r : Row). r.timestamp) (Encodes table.rows)
      (λ t u r v a b. same_destination table t u r v keyed a b) (λ t r a. a.timestamp) ds ts ls rs h
      k

module _ (s : SqlStore) (ts log new : List StoredTelegram) (sound : IsSound s ts log) where
  -- The store after a transaction whose ids, table and rows fit the new telegrams.
  inserted-IsSound :
      (ids : Ids) (table : LookupTable) (rs : List Row)
      → Extends s.database.string_lookup table
      → Entries (publish s.lookup_cache ids).cache table.rows
      → Pairwise (Encodes table.rows) new rs
      → IsSound (inserted s ids table rs) (ts ++ new) (log ++ new)
  inserted-IsSound ids table rs grown published rows =
      let key = λ (t : StoredTelegram). t.destination in
      let stamp = λ (t : StoredTelegram). t.timestamp in
      let old = s.database.string_lookup.rows in
      let batch = upsert_all-Encodes table [] new [] rs grown.keyed tt rows in
      let before =
        Pairwise-Agrees old table.rows sound.summary s.database.last_ga_telegrams grown.kept
          sound.summaries in
      record {
        keyed = grown.keyed;
        cached = published;
        telegrams =
            Pairwise-append (Encodes table.rows) ts new s.database.telegrams rs
              (Pairwise-Agrees old table.rows ts s.database.telegrams grown.kept sound.telegrams)
              rows;
        summary = put_all key stamp sound.summary (put_all key stamp [] new);
        summaries =
            upsert_all-Encodes table sound.summary (put_all key stamp [] new)
              s.database.last_ga_telegrams (latest_per_destination rs) grown.keyed before batch;
        is_summary =
            put_all-IsSummary key stamp log new sound.summary (put_all key stamp [] new)
              sound.is_summary (put_all-IsSummary_batch key stamp new);
      }

  -- What a call of `store_many` gives that succeeds.
  abbrev pub Stored : Outcome Unit → Type 0
  Stored o =
      (o.0 ≡ ok tt)
      × IsSound o.1 (ts ++ new) (log ++ new)
      × (o.1.read_only ≡ s.read_only)
      × (o.1.retention_days ≡ s.retention_days)

  write_batch-Stored : (platform : Platform) → Stored (write_batch platform committed new s)
  unfolding write_batch
  write_batch-Stored platform =
      let pairs = platform.iterate (all_pairs new) in
      let agrees =
        λ (p : Pair). λ (i : ℕ). λ (m : In (p, i) s.lookup_cache.cache). sound.cached p i m in
      let done =
        get_or_create_ids-Resolves s.dialect s.lookup_cache s.database.string_lookup pairs
          sound.keyed agrees in
      let ids = (get_or_create_ids s.dialect s.lookup_cache s.database.string_lookup pairs).0 in
      let table = (get_or_create_ids s.dialect s.lookup_cache s.database.string_lookup pairs).1 in
      let (rs, e, rows) = encode_all-Encodes ids table.rows new (λ p m.
        let (i, found) = done.complete p (platform.iterate-In p (all_pairs new) m) in
        (i, found, done.entries p i (find-In p i ids found))) in
      let published =
        publish-Entries s.dialect s.lookup_cache s.database.string_lookup pairs sound.keyed
          agrees in
      subst (λ (r : Result (List Row)). Stored (with_values s committed ids table r)) (sym e)
        (refl, inserted-IsSound ids table rs done.table published rows, refl, refl)

wrapped-Stored :
    (s : SqlStore) (ts log new : List StoredTelegram) (sound : IsSound s ts log) (o : Outcome Unit)
    → Stored s ts log new sound o
    → Stored s ts log new sound (wrapped o)
unfolding wrap_store_errors
wrapped-Stored s ts log new sound (r, u) h = (ap wrap_store_errors h.0, h.1, h.2, h.3)

pub store_many-Stored :
    (platform : Platform) (s : SqlStore) (ts log new : List StoredTelegram)
    → s.read_only ≡ false
    → (sound : IsSound s ts log) → Stored s ts log new sound (store_many platform committed new s)
unfolding store_many
store_many-Stored platform s ts log [] open_for sound =
    let nothing : Outcome Unit = (ok tt, s) in
    let readonly : Outcome Unit = (raise (fresh knx_telegram_store_exception), s) in
    let kept : Stored s ts log [] sound nothing = (
      refl,
      subst (λ xs. IsSound s xs (log ++ [])) (sym (append-nil ts))
          (subst (IsSound s ts) (sym (append-nil log)) sound),
      refl,
      refl,
    ) in
    wrapped-Stored s ts log [] sound (ensure_writable s nothing)
      (subst (Stored s ts log [] sound) (sym (if_false s.read_only readonly nothing open_for)) kept)
store_many-Stored platform s ts log (n ∷ new) open_for sound =
    let batch = write_batch platform committed (n ∷ new) s in
    let readonly : Outcome Unit = (raise (fresh knx_telegram_store_exception), s) in
    wrapped-Stored s ts log (n ∷ new) sound (ensure_writable s batch) (
      subst (Stored s ts log (n ∷ new) sound) (sym (if_false s.read_only readonly batch open_for))
        (write_batch-Stored s ts log (n ∷ new) sound platform))

-- If the transaction commits, `store_many` of a writable store returns, and its tables then stand for
-- the telegrams that they stood for with the new ones behind them; the summaries are those of all that
-- was stored since the store was cleared. The condition is that the tables stood for telegrams.
pub store_many-IsSound :
    (platform : Platform) (s : SqlStore) (ts log new : List StoredTelegram)
    → s.read_only ≡ false
    → IsSound s ts log
    → ((store_many platform committed new s).0 ≡ ok tt)
      × IsSound (store_many platform committed new s).1 (ts ++ new) (log ++ new)
store_many-IsSound platform s ts log new open_for sound =
    let (returned, stands, kept, same) = store_many-Stored platform s ts log new open_for sound in
    (returned, stands)
