-- ===== src/Sql/Calls.antt =====
-- Any call of a writing method as a value, and what it means for the telegrams.
use knx_telegram_store.Prelude.{
  ℕ, ◌*◌, Bool, true, false, not, List, [], ◌∷◌, ◌++◌, Option, none, some, ltb,
}
use knx_telegram_store.Prelude.Int.{pos}
use knx_telegram_store.Prelude.Keep.{keep}
use knx_telegram_store.Exceptions.{Result, ok, raise}
use knx_telegram_store.Model.{Time, StoredTelegram}
use knx_telegram_store.Memory.Times.{minus}
use knx_telegram_store.Sql.{SqlStore, Platform}
use knx_telegram_store.Sql.Write.{
  Outcome, Answer, committed, failed, store, store_many, evict_older_than, evict_expired, clear,
  day,
}

pub data SqlCall : Type 0 where
  store_call : StoredTelegram → SqlCall
  store_many_call : List StoredTelegram → SqlCall
  evict_older_than_call : Time → Bool → SqlCall
  evict_expired_call : Time → Bool → SqlCall
  clear_call : SqlCall

abbrev pub forget : {A : Type 0} → Outcome A → Outcome Unit
forget (ok a, s) = (ok tt, s)
forget (raise e, s) = (raise e, s)

unfoldable pub perform : Platform → Answer → SqlStore → SqlCall → Outcome Unit
unfolding store store_many evict_older_than evict_expired clear
perform p answer s (store_call t) = forget (store p answer t s)
perform p answer s (store_many_call ts) = forget (store_many p answer ts s)
perform p answer s (evict_older_than_call cutoff dry_run) =
    forget (evict_older_than answer cutoff dry_run s)
perform p answer s (evict_expired_call now dry_run) = forget (evict_expired answer now dry_run s)
perform p answer s clear_call = forget (clear answer s)

-- Calls one after the other, each with the answer of the database to it.
unfoldable pub perform_all : Platform → SqlStore → List (Answer × SqlCall) → SqlStore
unfolding perform
perform_all p s [] = s
perform_all p s ((answer, c) ∷ cs) = perform_all p (perform p answer s c).1 cs

abbrev pub without_older : Time → Bool → List StoredTelegram → List StoredTelegram
without_older cutoff true ts = ts
without_older cutoff false ts = keep (λ t. not (ltb t.timestamp cutoff)) ts

abbrev pub without_before : Result Time → Bool → List StoredTelegram → List StoredTelegram
without_before (raise e) dry_run ts = ts
without_before (ok cutoff) dry_run ts = without_older cutoff dry_run ts

abbrev pub without_expired : Option ℕ → Time → Bool → List StoredTelegram → List StoredTelegram
without_expired none now dry_run ts = ts
without_expired (some days) now dry_run ts =
    without_before (minus now (pos (days * day))) dry_run ts

-- The telegrams behind a call of a store with a retention period, and those of the log.
abbrev pub telegrams_after : Option ℕ → Answer × SqlCall → List StoredTelegram → List StoredTelegram
telegrams_after retention (failed e n, c) ts = ts
telegrams_after retention (committed, store_call t) ts = ts ++ t ∷ []
telegrams_after retention (committed, store_many_call new) ts = ts ++ new
telegrams_after retention (committed, evict_older_than_call cutoff dry_run) ts =
    without_older cutoff dry_run ts
telegrams_after retention (committed, evict_expired_call now dry_run) ts =
    without_expired retention now dry_run ts
telegrams_after retention (committed, clear_call) ts = []

abbrev pub log_after : Answer × SqlCall → List StoredTelegram → List StoredTelegram
log_after (failed e n, c) log = log
log_after (committed, store_call t) log = log ++ t ∷ []
log_after (committed, store_many_call new) log = log ++ new
log_after (committed, evict_older_than_call cutoff dry_run) log = log
log_after (committed, evict_expired_call now dry_run) log = log
log_after (committed, clear_call) log = []

abbrev pub telegrams_after_all :
    Option ℕ → List (Answer × SqlCall) → List StoredTelegram → List StoredTelegram
telegrams_after_all retention [] ts = ts
telegrams_after_all retention (c ∷ cs) ts =
    telegrams_after_all retention cs (telegrams_after retention c ts)

abbrev pub log_after_all : List (Answer × SqlCall) → List StoredTelegram → List StoredTelegram
log_after_all [] log = log
log_after_all (c ∷ cs) log = log_after_all cs (log_after c log)
