-- ===== src/Sql/Atomic.antt =====
-- What a writing method of a SQL store leaves when it raises or its transaction fails, and what one of
-- a read-only store does.
use knx_telegram_store.Prelude.{
  ℕ, ◌*◌, ◌+◌, ◌-◌, arith, length, Bool, true, List, [], ◌∷◌, Option, none, some, ◌≡◌, refl, ap,
  if_ind, if_true,
}
use knx_telegram_store.Exceptions.{
  PyException, Result, ok, raise, fresh, knx_telegram_store_exception,
}
use knx_telegram_store.Model.{Time, StoredTelegram}
use knx_telegram_store.Store.{wrap_store_errors}
use knx_telegram_store.Lookup.{
  Dialect, postgresql, sqlite, other_dialect, LookupTable, get_or_create_ids,
}
use knx_telegram_store.Memory.Times.{minus}
use knx_telegram_store.Prelude.Int.{pos}
use knx_telegram_store.Prelude.Keep.{keep}
use knx_telegram_store.Sql.Encode.{all_pairs}
use knx_telegram_store.Lookup.Pairs.{Ids}
use knx_telegram_store.Sql.{Row, SqlStore, Platform}
use knx_telegram_store.Sql.Write.{
  Outcome, Answer, committed, failed, drawn, rolled_back, ensure_writable, wrapped, commit,
  encode_all, inserted, with_values, write_batch, store_many, store, evict_older_than, evict_before,
  expire, evict_expired, clear, day, evict_body, evicted, emptied, is_older,
}
use knx_telegram_store.Sql.Calls.{
  SqlCall, store_call, store_many_call, evict_older_than_call, evict_expired_call, clear_call,
  forget, perform,
}

-- What holds of every way in which a writing method can end holds of every call: it returns or raises
-- without a transaction, or it ends one behind `_ensure_writable`.
module _ (answer : Answer) (s : SqlStore) (Q : (A : Type 0) → Outcome A → Type 0)
    (returns : (A : Type 0) (a : A) → Q A (ok a, s))
    (raises : (A : Type 0) (e : PyException) → Q A (raise e, s))
    (commits : (A : Type 0) (a : A) (done : SqlStore)
      → Q A (ensure_writable s (commit answer s a done)))
    (wraps : (A : Type 0) (o : Outcome A) → Q A o → Q A (wrapped o))
    (undoes : (A : Type 0) (e : PyException) (k : ℕ)
      → Q A (ensure_writable s (raise e, rolled_back k s)))
    (forgets : (A : Type 0) (o : Outcome A) → Q A o → Q Unit (forget o)) where
  guards : (A : Type 0) (o : Outcome A) → Q A o → Q A (ensure_writable s o)
  guards A o h =
      if_ind (Q A) s.read_only {x = (raise (fresh knx_telegram_store_exception), s)} {y = o}
        (λ _. raises A (fresh knx_telegram_store_exception)) (λ _. h)

  with_values-Ends :
      (ids : Ids) (table : LookupTable) (r : Result (List Row))
      → Q Unit (ensure_writable s (with_values s answer ids table r))
  with_values-Ends ids table (raise x) =
      undoes Unit x (table.next_id - s.database.string_lookup.next_id)
  with_values-Ends ids table (ok values) = commits Unit tt (inserted s ids table values)

  store_many-Ends :
      (platform : Platform) (ts : List StoredTelegram) → Q Unit (store_many platform answer ts s)
  unfolding store_many write_batch
  store_many-Ends platform [] =
      wraps Unit (ensure_writable s (ok tt, s)) (guards Unit (ok tt, s) (returns Unit tt))
  store_many-Ends platform (t ∷ ts) =
      let made =
        get_or_create_ids s.dialect s.lookup_cache s.database.string_lookup
          (platform.iterate (all_pairs (t ∷ ts))) in
      let values = encode_all made.0 (t ∷ ts) in
      wraps Unit (ensure_writable s (with_values s answer made.0 made.1 values))
        (with_values-Ends made.0 made.1 values)

  store-Ends : (platform : Platform) (t : StoredTelegram) → Q Unit (store platform answer t s)
  unfolding store
  store-Ends platform t =
      wraps Unit (store_many platform answer (t ∷ []) s) (store_many-Ends platform (t ∷ []))

  evict_older_than-Ends :
      (cutoff : Time) (dry_run : Bool) → Q ℕ (evict_older_than answer cutoff dry_run s)
  unfolding evict_older_than
  evict_older_than-Ends cutoff dry_run =
      let older = length (keep (is_older cutoff) s.database.telegrams) in
      wraps ℕ (ensure_writable s (evict_body answer cutoff dry_run s)) (
        if_ind (λ o. Q ℕ (ensure_writable s o)) dry_run (λ _. commits ℕ older s)
          (λ _. commits ℕ older (evicted cutoff s)))

  evict_before-Ends :
      (cutoff : Result Time) (dry_run : Bool) → Q ℕ (evict_before answer cutoff dry_run s)
  unfolding evict_before
  evict_before-Ends (raise x) dry_run = raises ℕ x
  evict_before-Ends (ok cutoff) dry_run = evict_older_than-Ends cutoff dry_run

  expire-Ends :
      (retention : Option ℕ) (now : Time) (dry_run : Bool)
      → Q ℕ (expire answer retention now dry_run s)
  unfolding expire
  expire-Ends none now dry_run = returns ℕ 0
  expire-Ends (some days) now dry_run = evict_before-Ends (minus now (pos (days * day))) dry_run

  evict_expired-Ends : (now : Time) (dry_run : Bool) → Q ℕ (evict_expired answer now dry_run s)
  unfolding evict_expired
  evict_expired-Ends now dry_run =
      wraps ℕ (expire answer s.retention_days now dry_run s)
        (expire-Ends s.retention_days now dry_run)

  clear-Ends : Q Unit (clear answer s)
  unfolding clear
  clear-Ends =
      wraps Unit (ensure_writable s (commit answer s tt (emptied s))) (commits Unit tt (emptied s))

  perform-Ends : (platform : Platform) (c : SqlCall) → Q Unit (perform platform answer s c)
  unfolding perform
  perform-Ends p (store_call t) = forgets Unit (store p answer t s) (store-Ends p t)
  perform-Ends p (store_many_call ts) =
      forgets Unit (store_many p answer ts s) (store_many-Ends p ts)
  perform-Ends p (evict_older_than_call t d) =
      forgets ℕ (evict_older_than answer t d s) (evict_older_than-Ends t d)
  perform-Ends p (evict_expired_call t d) =
      forgets ℕ (evict_expired answer t d s) (evict_expired-Ends t d)
  perform-Ends p clear_call = forgets Unit (clear answer s) clear-Ends

-- The store is as it was, but for ids that its sequence has given away.
abbrev pub RolledBack : SqlStore → SqlStore → Type 0
RolledBack s u = (n : ℕ) × (u ≡ rolled_back n s)

nothing-drawn : (d : Dialect) (t : LookupTable) → t ≡ drawn d 0 t
nothing-drawn postgresql t =
    let same : t.next_id ≡ t.next_id + 0 = omega arith in ap (λ n. record t { next_id = n }) same
nothing-drawn sqlite t = refl
nothing-drawn other_dialect t = refl

as_before : (s : SqlStore) → RolledBack s s
as_before s = (
  0,
  ap (λ (t : LookupTable). record s { database = record (s.database) { string_lookup = t } })
      (nothing-drawn s.dialect s.database.string_lookup),
)

abbrev Atomic : SqlStore → (A : Type 0) → Outcome A → Type 0
Atomic s A o = (e : PyException) → o.0 ≡ raise e → RolledBack s o.1

commit-Atomic :
    (answer : Answer) (s : SqlStore) (A : Type 0) (a : A) (done : SqlStore)
    → Atomic s A (ensure_writable s (commit answer s a done))
commit-Atomic committed s A a done =
    if_ind (Atomic s A) s.read_only {x = (raise (fresh knx_telegram_store_exception), s)}
      {y = (ok a, done)} (λ _ e k. as_before s) (λ _ e k. absurd cc (k))
commit-Atomic (failed x n) s A a done =
    if_ind (Atomic s A) s.read_only {x = (raise (fresh knx_telegram_store_exception), s)}
      {y = (raise x, rolled_back n s)} (λ _ e k. as_before s) (λ _ e k. (n, refl))

undone-Atomic :
    (s : SqlStore) (A : Type 0) (e : PyException) (k : ℕ)
    → Atomic s A (ensure_writable s (raise e, rolled_back k s))
undone-Atomic s A e k =
    if_ind (Atomic s A) s.read_only {x = (raise (fresh knx_telegram_store_exception), s)}
      {y = (raise e, rolled_back k s)} (λ _ d h. as_before s) (λ _ d h. (k, refl))

wrapped-Atomic : (s : SqlStore) (A : Type 0) (o : Outcome A) → Atomic s A o → Atomic s A (wrapped o)
unfolding wrap_store_errors
wrapped-Atomic s A (ok a, u) h e k = absurd cc (k)
wrapped-Atomic s A (raise x, u) h e k = h x refl

forget-Atomic :
    (s : SqlStore) (A : Type 0) (o : Outcome A) → Atomic s A o → Atomic s Unit (forget o)
forget-Atomic s A (ok a, u) h e k = absurd cc (k)
forget-Atomic s A (raise x, u) h e k = h x refl

-- A writing method of `BaseSQLStore` that raises, because the store is read-only, because its
-- transaction failed or for any other reason, leaves the rows of all tables and the cache of ids as they
-- were; on PostgreSQL the sequence of the ids may have moved on, elsewhere all is as it was. The override
-- of `evict_older_than` in the SQLite store is no such method: it goes on after its deletion.
pub perform-Atomic :
    (platform : Platform) (answer : Answer) (s : SqlStore) (c : SqlCall) (e : PyException)
    → (perform platform answer s c).0 ≡ raise e
    → (n : ℕ) × ((perform platform answer s c).1 ≡ rolled_back n s)
perform-Atomic p answer s c =
    perform-Ends answer s (Atomic s) (λ A a e k. absurd cc (k)) (λ A x e k. as_before s)
      (commit-Atomic answer s) (wrapped-Atomic s) (undone-Atomic s) (forget-Atomic s) p c

abbrev Unmoved : SqlStore → (A : Type 0) → Outcome A → Type 0
Unmoved s A o = o.1 ≡ s

wrapped-Unmoved :
    (s : SqlStore) (A : Type 0) (o : Outcome A) → Unmoved s A o → Unmoved s A (wrapped o)
wrapped-Unmoved s A (r, u) h = h

forget-Unmoved :
    (s : SqlStore) (A : Type 0) (o : Outcome A) → Unmoved s A o → Unmoved s Unit (forget o)
forget-Unmoved s A (ok a, u) h = h
forget-Unmoved s A (raise x, u) h = h

-- A call whose transaction fails leaves the store as it was, but for the sequence.
pub perform-failed :
    (platform : Platform) (x : PyException) (n : ℕ) (s : SqlStore) (c : SqlCall)
    → RolledBack s (perform platform (failed x n) s c).1
perform-failed p x n s c =
    perform-Ends (failed x n) s Q (λ A a. as_before s) (λ A y. as_before s)
      (λ A a done.
        if_ind (Q A) s.read_only {x = (raise (fresh knx_telegram_store_exception), s)}
          {y = (raise x, rolled_back n s)} (λ _. as_before s) (λ _. (n, refl)))
      wraps undone forgets p c
  where
    Q : (A : Type 0) → Outcome A → Type 0
    Q A o = RolledBack s o.1

    wraps : (A : Type 0) (o : Outcome A) → Q A o → Q A (wrapped o)
    wraps A (r, u) h = h

    undone :
        (A : Type 0) (e : PyException) (k : ℕ) → Q A (ensure_writable s (raise e, rolled_back k s))
    undone A e k =
        if_ind (Q A) s.read_only {x = (raise (fresh knx_telegram_store_exception), s)}
          {y = (raise e, rolled_back k s)} (λ _. as_before s) (λ _. (k, refl))

    forgets : (A : Type 0) (o : Outcome A) → Q A o → Q Unit (forget o)
    forgets A (ok a, u) h = h
    forgets A (raise e, u) h = h

-- No writing method of a read-only store changes the database or the cache of ids, whatever the
-- database would answer.
pub perform-read_only :
    (platform : Platform) (answer : Answer) (s : SqlStore) (c : SqlCall)
    → s.read_only ≡ true
    → (perform platform answer s c).1 ≡ s
perform-read_only p answer s c closed =
    perform-Ends answer s (Unmoved s) (λ A a. refl) (λ A y. refl)
      (λ A a done.
        ap (λ (o : Outcome A). o.1)
          (if_true s.read_only (raise (fresh knx_telegram_store_exception), s)
            (commit answer s a done) closed))
      (wrapped-Unmoved s)
      (λ A e k.
        ap (λ (o : Outcome A). o.1)
          (if_true s.read_only (raise (fresh knx_telegram_store_exception), s)
            (raise e, rolled_back k s) closed))
      (forget-Unmoved s) p c
