-- ===== src/Sqlite/Evict.antt =====
-- `evict_older_than` of the SQLite store, which overrides that of `BaseSQLStore`: the deletion first,
-- then the statistics in a transaction of their own, then the checkpoint of the log.
use knx_telegram_store.Prelude.{ℕ, not, ◌&&◌, Bool, Option, none, some, if◌then◌else◌, ◌==◌, nat_eq}
use knx_telegram_store.Exceptions.{PyException, ok, raise}
use knx_telegram_store.Model.{Time}
use knx_telegram_store.Store.{wrap_store_errors}
use knx_telegram_store.Sql.{SqlStore}
use knx_telegram_store.Sql.Write
use knx_telegram_store.Sql.Write.{Answer, Outcome, wrapped}

-- How a statement ends that changes no row: `none`, or what it raises.
abbrev pub run_or_raise : Option PyException → SqlStore → Outcome ℕ → Outcome ℕ
run_or_raise none s rest = rest
run_or_raise (some e) s rest = (raise e, s)

-- What follows the deletion. The statistics are no part of the model, so refreshing them leaves the
-- store as it is.
abbrev pub after_deletion :
    Bool → Bool → Option PyException → Option PyException → Outcome ℕ → Outcome ℕ
after_deletion is_memory dry_run statistics checkpoint (raise e, s) = (raise e, s)
after_deletion is_memory dry_run statistics checkpoint (ok deleted, s) =
    let truncated =
      if not (deleted == 0) && not is_memory
      then run_or_raise checkpoint s (ok deleted, s)
      else (ok deleted, s) in
    if dry_run then (ok deleted, s) else run_or_raise statistics s truncated

unfoldable pub evict_older_than :
    Bool → Answer → Option PyException → Option PyException → Time → Bool → SqlStore → Outcome ℕ
unfolding Write.evict_older_than wrap_store_errors
evict_older_than is_memory answer statistics checkpoint cutoff dry_run s = wrapped (
    after_deletion is_memory dry_run statistics checkpoint
      (Write.evict_older_than answer cutoff dry_run s))
