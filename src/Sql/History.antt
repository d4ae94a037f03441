-- ===== src/Sql/History.antt =====
-- Any sequence of writing calls against the list of telegrams that they leave.
use mathlib.Core.Path.{subst}
use knx_telegram_store.Prelude.{
  ℕ, ◌*◌, Bool, true, false, not, List, [], ◌∷◌, ◌++◌, Option, none, some, ◌≡◌, refl, ap, sym, ◌∙◌,
  ltb, if_false, string_eq, arith,
}
use knx_telegram_store.Prelude.Int.{pos}
use knx_telegram_store.Prelude.Reorder.{Pairwise, Pairwise-keep}
use knx_telegram_store.Lookup.{Dialect, postgresql, sqlite, other_dialect, LookupTable}
use knx_telegram_store.Lookup.Inserted.{IsKeyed}
use knx_telegram_store.Lookup.Resolved.{Entries}
use knx_telegram_store.Prelude.Newest.{IsSummary-empty}
use knx_telegram_store.Exceptions.{Result, ok, raise, fresh, knx_telegram_store_exception}
use knx_telegram_store.Model.{Time, StoredTelegram}
use knx_telegram_store.Memory.Times.{minus}
use knx_telegram_store.Sql.{SqlStore, Platform}
use knx_telegram_store.Sql.Sound.{Encodes, IsSound}
use knx_telegram_store.Sql.Insert.{store_many-Stored}
use knx_telegram_store.Sql.Atomic.{perform-failed}
use knx_telegram_store.Sql.Write.{
  Outcome, ensure_writable, wrapped, store, store_many, evict_older_than, evict_before, expire,
  evict_expired, clear, day, Answer, committed, failed, drawn, rolled_back, evicted, emptied,
  is_older, evict_body,
}
use knx_telegram_store.Sql.Calls.{
  SqlCall, store_call, store_many_call, evict_older_than_call, evict_expired_call, clear_call,
  forget, perform, perform_all, without_older, without_before, without_expired, telegrams_after,
  log_after, telegrams_after_all, log_after_all,
}

-- The store is still writable, has its retention period, and its tables stand for the telegrams.
abbrev pub Follows : Option ℕ → List StoredTelegram → List StoredTelegram → SqlStore → Type 0
Follows retention ts log s =
    (s.read_only ≡ false) × (s.retention_days ≡ retention) × IsSound s ts log

evicted-IsSound :
    (cutoff : Time) (s : SqlStore) (ts log : List StoredTelegram)
    → IsSound s ts log
    → IsSound (evicted cutoff s) (without_older cutoff false ts) log
evicted-IsSound cutoff s ts log h = record {
  keyed = h.keyed;
  cached = h.cached;
  telegrams =
      Pairwise-keep (Encodes s.database.string_lookup.rows) (λ t. not (ltb t.timestamp cutoff))
        (λ r. not (is_older cutoff r)) (λ t r k. ap (λ x. not (ltb x cutoff)) k.timestamp) ts
        s.database.telegrams h.telegrams;
  summary = h.summary;
  summaries = h.summaries;
  is_summary = h.is_summary;
}

emptied-IsSound :
    (s : SqlStore) (ts log : List StoredTelegram) → IsSound s ts log → IsSound (emptied s) [] []
emptied-IsSound s ts log h = record {
  keyed = h.keyed;
  cached = h.cached;
  telegrams = tt;
  summary = [];
  summaries = tt;
  is_summary =
      IsSummary-empty (λ (t : StoredTelegram). t.destination) (λ (t : StoredTelegram). t.timestamp);
}

pub forget-store : {A : Type 0} (o : Outcome A) → (forget o).1 ≡ o.1
forget-store (ok a, s) = refl
forget-store (raise e, s) = refl

module _ (s : SqlStore) (open_for : s.read_only ≡ false) where
  -- A writable store runs what stands behind the guard.
  unguarded :
      {A : Type 0} (o : Outcome A) (P : SqlStore → Type 0)
      → P o.1
      → P (wrapped (ensure_writable s o)).1
  unguarded {A = A} o P h =
      subst (λ (x : Outcome A). P (wrapped x).1)
        (sym (if_false s.read_only (raise (fresh knx_telegram_store_exception), s) o open_for)) h

  module _ (ts log : List StoredTelegram) (sound : IsSound s ts log) where
    abbrev Leaves : List StoredTelegram → SqlStore → Type 0
    Leaves us = Follows s.retention_days us log

    evict_older_than-Follows :
        (cutoff : Time) (dry_run : Bool)
        → Leaves (without_older cutoff dry_run ts) (evict_older_than committed cutoff dry_run s).1
    unfolding evict_older_than
    evict_older_than-Follows cutoff true =
        unguarded (evict_body committed cutoff true s) (Leaves ts) (open_for, refl, sound)
    evict_older_than-Follows cutoff false =
        unguarded (evict_body committed cutoff false s) (Leaves (without_older cutoff false ts))
          (open_for, refl, evicted-IsSound cutoff s ts log sound)

    evict_before-Follows :
        (cutoff : Result Time) (dry_run : Bool)
        → Leaves (without_before cutoff dry_run ts) (evict_before committed cutoff dry_run s).1
    unfolding evict_before
    evict_before-Follows (raise e) dry_run = (open_for, refl, sound)
    evict_before-Follows (ok cutoff) dry_run = evict_older_than-Follows cutoff dry_run

    expire-Follows :
        (retention : Option ℕ) (now : Time) (dry_run : Bool)
        → Leaves
            (without_expired retention now dry_run ts)
            (expire committed retention now dry_run s).1
    unfolding expire
    expire-Follows none now dry_run = (open_for, refl, sound)
    expire-Follows (some days) now dry_run =
        evict_before-Follows (minus now (pos (days * day))) dry_run

    store_many-Follows :
        (p : Platform) (new : List StoredTelegram)
        → Follows s.retention_days (ts ++ new) (log ++ new) (store_many p committed new s).1
    store_many-Follows p new =
        let (returned, stands, kept, same) = store_many-Stored p s ts log new open_for sound in
        (kept ∙ open_for, same, stands)

    -- One call whose transaction commits.
    perform-Follows :
        (p : Platform) (c : SqlCall)
        → Follows s.retention_days
            (telegrams_after s.retention_days (committed, c) ts)
            (log_after (committed, c) log)
            (perform p committed s c).1
    unfolding perform store evict_expired clear
    perform-Follows p (store_call t) =
        subst (Follows s.retention_days (ts ++ t ∷ []) (log ++ t ∷ []))
          (sym (forget-store (wrapped (store_many p committed (t ∷ []) s))))
          (store_many-Follows p (t ∷ []))
    perform-Follows p (store_many_call new) =
        subst (Follows s.retention_days (ts ++ new) (log ++ new))
          (sym (forget-store (store_many p committed new s))) (store_many-Follows p new)
    perform-Follows p (evict_older_than_call cutoff dry_run) =
        subst (Leaves (without_older cutoff dry_run ts))
          (sym (forget-store (evict_older_than committed cutoff dry_run s)))
          (evict_older_than-Follows cutoff dry_run)
    perform-Follows p (evict_expired_call now dry_run) =
        subst (Leaves (without_expired s.retention_days now dry_run ts))
          (sym (forget-store (wrapped (expire committed s.retention_days now dry_run s))))
          (expire-Follows s.retention_days now dry_run)
    perform-Follows p clear_call =
        let body : Outcome Unit = (ok tt, emptied s) in
        subst (Follows s.retention_days [] [])
          (sym (forget-store (wrapped (ensure_writable s body))))
          (unguarded body (Follows s.retention_days [] [])
            (open_for, refl, emptied-IsSound s ts log sound))

drawn-IsKeyed : (d : Dialect) (n : ℕ) (t : LookupTable) → IsKeyed t → IsKeyed (drawn d n t)
drawn-IsKeyed postgresql n t h = record {
  one_row = h.one_row;
  used = λ p i found. omega (arith, h.used p i found);
  one_pair = h.one_pair;
}
drawn-IsKeyed sqlite n t h = h
drawn-IsKeyed other_dialect n t h = h

drawn-rows : (d : Dialect) (n : ℕ) (t : LookupTable) → t.rows ≡ (drawn d n t).rows
drawn-rows postgresql n t = refl
drawn-rows sqlite n t = refl
drawn-rows other_dialect n t = refl

pub rolled_back-Follows :
    (n : ℕ) (retention : Option ℕ) (ts log : List StoredTelegram) (s : SqlStore)
    → Follows retention ts log s
    → Follows retention ts log (rolled_back n s)
rolled_back-Follows n retention ts log s (open_for, same, h) =
    let rows = drawn-rows s.dialect n s.database.string_lookup in
    (
      open_for,
      same,
      record {
        keyed = drawn-IsKeyed s.dialect n s.database.string_lookup h.keyed;
        cached = subst (Entries s.lookup_cache.cache) rows h.cached;
        telegrams = subst (λ r. Pairwise (Encodes r) ts s.database.telegrams) rows h.telegrams;
        summary = h.summary;
        summaries =
            subst (λ r. Pairwise (Encodes r) h.summary s.database.last_ga_telegrams) rows
              h.summaries;
        is_summary = h.is_summary;
      },
    )

-- A call with any answer.
perform-Follows_any :
    (p : Platform) (answer : Answer) (c : SqlCall) (retention : Option ℕ) (s : SqlStore)
    (ts log : List StoredTelegram)
    → Follows retention ts log s
    → Follows retention
        (telegrams_after retention (answer, c) ts)
        (log_after (answer, c) log)
        (perform p answer s c).1
perform-Follows_any p (failed x k) c retention s ts log h =
    let (n, same) = perform-failed p x k s c in
    subst (Follows retention ts log) (sym same) (rolled_back-Follows n retention ts log s h)
perform-Follows_any p committed c retention s ts log (open_for, same, sound) =
    subst
      (λ r.
        Follows r (telegrams_after r (committed, c) ts) (log_after (committed, c) log)
          (perform p committed s c).1)
      same (perform-Follows s open_for ts log sound p c)

perform_all-Follows :
    (p : Platform) (retention : Option ℕ) (s : SqlStore) (cs : List (Answer × SqlCall))
    (ts log : List StoredTelegram)
    → Follows retention ts log s
    → Follows retention
        (telegrams_after_all retention cs ts)
        (log_after_all cs log)
        (perform_all p s cs)
unfolding perform_all
perform_all-Follows p retention s [] ts log h = h
perform_all-Follows p retention s ((answer, c) ∷ cs) ts log h =
    perform_all-Follows p retention (perform p answer s c).1 cs
      (telegrams_after retention (answer, c) ts) (log_after (answer, c) log)
      (perform-Follows_any p answer c retention s ts log h)

-- After any sequence of writing calls on a writable store whose tables stand for telegrams, where the
-- database commits or fails each transaction as it likes, the tables stand for the list of telegrams
-- that the committed calls leave: a store appends, an eviction removes the telegrams before its
-- cutoff, `clear` empties. The summaries are the newest telegram of each destination among all that
-- were stored since the last committed `clear`, evicted or not.
pub perform_all-IsSound :
    (p : Platform) (s : SqlStore) (cs : List (Answer × SqlCall)) (ts log : List StoredTelegram)
    → s.read_only ≡ false
    → IsSound s ts log
    → IsSound
        (perform_all p s cs)
        (telegrams_after_all s.retention_days cs ts)
        (log_after_all cs log)
perform_all-IsSound p s cs ts log open_for sound =
    (perform_all-Follows p s.retention_days s cs ts log (open_for, refl, sound)).2
