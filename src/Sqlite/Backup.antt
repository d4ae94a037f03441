-- ===== src/Sqlite/Backup.antt =====
-- `begin_backup`, `end_backup` and `close` of `SqliteStore`, with the write lock that SQLite holds, and
-- the disk-space tests before the startup passes.
use knx_telegram_store.Prelude.{
  ℕ, ◌+◌, Bool, true, false, not, List, [], ◌∷◌, Option, none, some, leb, ltb, if◌then◌else◌,
}
use knx_telegram_store.Exceptions.{
  PyException, Result, ok, raise, raise_new, knx_telegram_store_exception,
  insufficient_disk_space_error,
}
use knx_telegram_store.Store.{wrap_store_errors}

-- The fields of the store that a backup concerns, and whether its connection holds SQLite's write lock.
pub record BackupState : Type 0 where
  pub read_only : Bool
  pub is_memory : Bool
  pub backup_in_progress : Bool
  pub backup_connection : Bool
  pub locked : Bool

abbrev pub Step : Type 0
Step = Result Unit × BackupState

abbrev pub wrapped_step : Step → Step
wrapped_step (r, s) = (wrap_store_errors r, s)

-- The checkpoint and `BEGIN IMMEDIATE`; where one raises, the connection is closed.
abbrev pub lock_file : Option PyException → BackupState → Step
lock_file none s =
    (ok tt, record s { backup_connection = true; backup_in_progress = true; locked = true })
lock_file (some e) s = (raise e, s)

unfoldable pub begin_backup : Option PyException → BackupState → Step
unfolding wrap_store_errors
begin_backup answer s = wrapped_step (
    if s.read_only
    then (raise_new knx_telegram_store_exception, s)
    else if s.backup_in_progress
    then (raise_new knx_telegram_store_exception, s)
    else if s.is_memory
    then (ok tt, record s { backup_in_progress = true })
    else lock_file answer s)

-- `COMMIT`, and the connection is closed whether it raises or not.
abbrev pub committed : Option PyException → Result (Unit {0})
committed none = ok tt
committed (some e) = raise e

abbrev pub released : BackupState → BackupState
released s = record s { backup_in_progress = false; backup_connection = false; locked = false }

unfoldable pub end_backup : Option PyException → BackupState → Step
unfolding wrap_store_errors
end_backup answer s = wrapped_step (
    if not s.backup_in_progress
    then (raise_new knx_telegram_store_exception, s)
    else if not s.backup_connection
    then (ok tt, record s { backup_in_progress = false; backup_connection = false })
    else (committed answer, released s))

-- `close` up to `PRAGMA optimize`, which changes nothing here.
unfoldable pub close : Option PyException → BackupState → Step
unfolding end_backup wrap_store_errors
close answer s = wrapped_step (if s.backup_in_progress then end_backup answer s else (ok tt, s))

pub data BackupCall : Type 0 where
  begin_call : BackupCall
  end_call : BackupCall
  close_call : BackupCall

unfoldable pub perform_backup : BackupState → List (Option PyException × BackupCall) → BackupState
unfolding begin_backup end_backup close
perform_backup s [] = s
perform_backup s ((answer, begin_call) ∷ cs) = perform_backup (begin_backup answer s).1 cs
perform_backup s ((answer, end_call) ∷ cs) = perform_backup (end_backup answer s).1 cs
perform_backup s ((answer, close_call) ∷ cs) = perform_backup (close answer s).1 cs

-- The sizes of the file and of its WAL; a missing one counts nothing, and there are none in memory.
unfoldable pub file_size : Bool → Option ℕ → Option ℕ → ℕ
file_size true file wal = 0
file_size false file wal = size_of file + size_of wal
  where
    size_of : Option ℕ → ℕ
    size_of none = 0
    size_of (some n) = n

-- `free` is `none` in memory.
unfoldable pub require_free_space : Option ℕ → ℕ → Result (Unit {0})
require_free_space none needed = ok tt
require_free_space (some free) needed =
    if ltb free needed then raise_new insufficient_disk_space_error else ok tt

unfoldable pub vacuum_fits : Option ℕ → ℕ → Bool
vacuum_fits none size = true
vacuum_fits (some free) size = leb size free
