-- ===== src/Buffered/OverSql.antt =====
-- A SQL store behind the buffer, against what a flush relies on in Buffered/Conservation.
use mathlib.Core.List.{append-nil}
use mathlib.Core.Path.{subst}
use knx_telegram_store.Prelude.{
  ℕ, Bool, List, [], ◌∷◌, ◌++◌, Option, ◌≡◌, refl, ap, sym, ◌∙◌, if_ind,
}
use knx_telegram_store.Exceptions.{
  PyException, Result, ok, raise, fresh, knx_telegram_store_exception,
}
use knx_telegram_store.Model.{Time, StoredTelegram}
use knx_telegram_store.Query.{TelegramQuery, TelegramQueryResult}
use knx_telegram_store.Store.{StoreStats, wrap_store_errors, wrap-raise}
use knx_telegram_store.Lookup.{LookupTable, get_or_create_ids}
use knx_telegram_store.Lookup.Pairs.{Ids}
use knx_telegram_store.Sql.{Row, SqlStore, Platform}
use knx_telegram_store.Sql.Encode.{all_pairs}
use knx_telegram_store.Sql.Write
use knx_telegram_store.Sql.Write.{
  Answer, committed, failed, rolled_back, Outcome, ensure_writable, wrapped, with_values,
  encode_all, write_batch,
}
use knx_telegram_store.Sql.Calls.{perform, store_many_call}
use knx_telegram_store.Sql.Insert.{store_many-Stored}
use knx_telegram_store.Sql.Atomic.{perform-failed}
use knx_telegram_store.Sql.History.{Follows, rolled_back-Follows, forget-store}
use knx_telegram_store.Buffered.Backend.{Backend, Action}
use knx_telegram_store.Buffered.Conservation.{Journal}

-- A SQL store with the answers of its database to the transactions that are still to come; those
-- beyond the list commit.
pub record SqlBacking : Type 0 where
  pub store : SqlStore
  pub answers : List Answer

abbrev pub next_answer : List Answer → Answer
next_answer [] = committed
next_answer (a ∷ rest) = a

abbrev pub later_answers : List Answer → List Answer
later_answers [] = []
later_answers (a ∷ rest) = rest

-- The methods that a flush does not call.
pub record OtherMethods (S : Type 0) : Type 0 where
  pub initialize : Action S Unit
  pub close : Action S Unit
  pub query : TelegramQuery → S → Result TelegramQueryResult
  pub get_last_unique_telegrams : S → Result (List StoredTelegram)
  pub get_stats : S → Result StoreStats
  pub begin_backup : Action S Unit
  pub end_backup : Action S Unit
  pub optimize : Action S Unit
  pub clear : Action S Unit
  pub evict_older_than : Time → Bool → Action S ℕ
  pub retention_cutoff : Time → S → Option Time

module _ (platform : Platform) where
  -- `super().store_many` of a buffered SQL store.
  abbrev pub sql_store_many : List StoredTelegram → Action SqlBacking Unit
  sql_store_many ts b =
      let (r, s) = Write.store_many platform (next_answer b.answers) ts b.store in
      (r, record { store = s; answers = later_answers b.answers })

  abbrev pub sql_backend : OtherMethods SqlBacking → Backend
  sql_backend others = record {
    State = SqlBacking;
    initialize = others.initialize;
    close = others.close;
    store_many = sql_store_many;
    query = others.query;
    get_last_unique_telegrams = others.get_last_unique_telegrams;
    get_stats = others.get_stats;
    begin_backup = others.begin_backup;
    end_backup = others.end_backup;
    optimize = others.optimize;
    clear = others.clear;
    evict_older_than = others.evict_older_than;
    retention_cutoff = others.retention_cutoff;
  }

  -- The store is writable and its tables stand for the telegrams.
  abbrev pub SqlHolds : SqlBacking → List StoredTelegram → Type 0
  SqlHolds b us =
      (retention : Option ℕ) × (log : List StoredTelegram) × Follows retention us log b.store

  committed-ok :
      (ts us : List StoredTelegram) (s : SqlStore) (rest : List Answer)
      → SqlHolds (record { store = s; answers = rest }) us
      → ((Write.store_many platform committed ts s).0 ≡ ok tt)
        × SqlHolds
            (record { store = (Write.store_many platform committed ts s).1; answers = rest })
            (us ++ ts)
  committed-ok ts us s rest (retention, log, (open_for, same, sound)) =
      let (returned, stands, kept, still) = store_many-Stored platform s us log ts open_for sound in
      (returned, (retention, log ++ ts, (kept ∙ open_for, still ∙ same, stands)))

  failed-SqlHolds :
      (ts us : List StoredTelegram) (s : SqlStore) (rest : List Answer) (e : PyException) (k : ℕ)
      → SqlHolds (record { store = s; answers = rest }) us
      → SqlHolds
          (record { store = (Write.store_many platform (failed e k) ts s).1; answers = rest })
          us
  unfolding perform Write.store_many
  failed-SqlHolds ts us s rest e k (retention, log, h) =
      let (n, same) = perform-failed platform e k s (store_many_call ts) in
      (
        retention,
        log,
        subst (Follows retention us log)
            (sym same ∙ forget-store (Write.store_many platform (failed e k) ts s))
            (rolled_back-Follows n retention us log s h),
      )

  abbrev IsRaised : Outcome Unit → Type 0
  IsRaised o = (err : PyException) × (o.0 ≡ raise err)

  wrapped-IsRaised : (o : Outcome Unit) → IsRaised o → IsRaised (wrapped o)
  wrapped-IsRaised (r, s) (e, h) =
      let (err, same) = wrap-raise {A = Unit} e in (err, ap wrap_store_errors h ∙ same)

  with_values-IsRaised :
      (e : PyException) (k : ℕ) (s : SqlStore) (ids : Ids) (table : LookupTable)
      (r : Result (List Row))
      → IsRaised (with_values s (failed e k) ids table r)
  with_values-IsRaised e k s ids table (raise d) = (d, refl)
  with_values-IsRaised e k s ids table (ok values) = (e, refl)

  -- A batch raises if its transaction fails, and an empty batch has no transaction.
  failed-IsRaised :
      (t : StoredTelegram) (ts : List StoredTelegram) (s : SqlStore) (e : PyException) (k : ℕ)
      → IsRaised (Write.store_many platform (failed e k) (t ∷ ts) s)
  unfolding Write.store_many write_batch
  failed-IsRaised t ts s e k =
      let made =
        get_or_create_ids s.dialect s.lookup_cache s.database.string_lookup
          (platform.iterate (all_pairs (t ∷ ts))) in
      let body = with_values s (failed e k) made.0 made.1 (encode_all made.0 (t ∷ ts)) in
      wrapped-IsRaised (ensure_writable s body) (
        if_ind IsRaised s.read_only {x = (raise (fresh knx_telegram_store_exception), s)} {y = body}
          (λ _. (fresh knx_telegram_store_exception, refl))
          (λ _. with_values-IsRaised e k s made.0 made.1 (encode_all made.0 (t ∷ ts))))

  raised_not_ok : (o : Outcome Unit) → IsRaised o → o.0 ≡ ok tt → ⊥
  raised_not_ok o (e, h) k = absurd (cc (h, k))

  pub answered_ok :
      (a : Answer) (ts us : List StoredTelegram) (s : SqlStore) (rest : List Answer)
      → SqlHolds (record { store = s; answers = rest }) us
      → (Write.store_many platform a ts s).0 ≡ ok tt
      → SqlHolds
          (record { store = (Write.store_many platform a ts s).1; answers = rest })
          (us ++ ts)
  answered_ok committed ts us s rest h e = (committed-ok ts us s rest h).1
  answered_ok (failed x k) [] us s rest h e =
      subst
        (SqlHolds
          (record { store = (Write.store_many platform (failed x k) [] s).1; answers = rest }))
        (sym (append-nil us)) (failed-SqlHolds [] us s rest x k h)
  answered_ok (failed x k) (t ∷ ts) us s rest h e = absurd (
      raised_not_ok (Write.store_many platform (failed x k) (t ∷ ts) s) (failed-IsRaised t ts s x k)
        e)

  pub answered_raise :
      (a : Answer) (ts us : List StoredTelegram) (s : SqlStore) (rest : List Answer)
      (e : PyException)
      → SqlHolds (record { store = s; answers = rest }) us
      → (Write.store_many platform a ts s).0 ≡ raise e
      → SqlHolds (record { store = (Write.store_many platform a ts s).1; answers = rest }) us
  answered_raise committed ts us s rest e h raised = absurd (
      raised_not_ok (Write.store_many platform committed ts s) (e, raised)
        (committed-ok ts us s rest h).0)
  answered_raise (failed x k) ts us s rest e h raised = failed-SqlHolds ts us s rest x k h

  -- A SQL store is a journal: what its tables stand for grows by each batch that commits.
  abbrev pub sql_journal : (others : OtherMethods SqlBacking) → Journal (sql_backend others)
  sql_journal others = record {
    Holds = SqlHolds;
    accepted = λ ts us b h e.
        answered_ok (next_answer b.answers) ts us b.store (later_answers b.answers) h e;
    refused = λ ts us b e h raised.
        answered_raise (next_answer b.answers) ts us b.store (later_answers b.answers) e h raised;
  }
