-- ===== src/Tests/SqliteRuns.antt =====
-- Backups of a file, and the conversion to UTC in a zone that goes from +01:00 to +02:00 once, at a quarter to one.
use knx_telegram_store.Prelude.{
  ℕ, ◌+◌, ◌/◌, true, false, List, [], ◌∷◌, map, Option, none, some, ltb, if◌then◌else◌, ◌≡◌, refl,
  sym, ◌∙◌, arith, Bool-cases, inl, inr,
}
use knx_telegram_store.Prelude.Int.{pos, negsuc}
use knx_telegram_store.Model.{Time, Timedelta}
use knx_telegram_store.Exceptions.{PyException, fresh, driver_error}
use knx_telegram_store.Sqlite.Backup.{
  BackupState, BackupCall, begin_call, end_call, perform_backup, close,
}
use knx_telegram_store.Sqlite.Lock.{IsHeld, perform_backup-IsHeld}
use knx_telegram_store.Sqlite.Offsets.{second, hour, offset_at, offset_intervals}
use knx_telegram_store.Sqlite.Shifts.{ChangesOnce}
use knx_telegram_store.Sqlite.Migrate.{StampedRow, stamped_before, convert_rows}
use knx_telegram_store.Sqlite.Rows.{in_utc, convert_rows-in_utc}

-- The second of the change.
abbrev change : ℕ
change = 2700

abbrev zone : Time → Timedelta
zone t = if ltb t 2700000000 then pos 3600000000 else pos 7200000000

zone_before : (t : Time) → ltb t 2700000000 ≡ true → offset_at zone t ≡ pos 3600
unfolding offset_at
zone_before t h = rw h refl

zone_after : (t : Time) → ltb t 2700000000 ≡ false → offset_at zone t ≡ pos 7200
unfolding offset_at
zone_after t h = rw h refl

zone-ChangesOnce : (t : Time) → ChangesOnce zone t
zone-ChangesOnce t = elim (Bool-cases (ltb t 2700000000)) [
  | inl early ↦ record {
    change = change;
    behind = ground (arith, early);
    before_change = λ x a b c. zone_before x (ground (arith, b)) ∙ sym (zone_before t early);
    after_change = λ x a b.
        zone_after x (ground (arith, a)) ∙ sym (zone_after (t + hour) (ground (arith, a, b)));
  }
  | inr late ↦ record {
    change = t / second + 3602;
    behind = omega arith;
    before_change = λ x a b c. zone_after x (ground (arith, a, late)) ∙ sym (zone_after t late);
    after_change = λ x a b. absurd (omega (arith, a, b));
  }
]

one_change :
    offset_intervals zone 1000000 9000000000
    ≡ record { start = 0; end_exclusive = 2700000000; offset = pos 3600 }
      ∷ record { start = 2700000000; end_exclusive = 16200000000; offset = pos 7200 }
      ∷ []
unfolding offset_intervals
one_change = refl

abbrev local_rows : List StampedRow
local_rows =
    record { rowid = 1; stamp = pos 2699999999 }
    ∷ record { rowid = 2; stamp = pos 2700000000 }
    ∷ record { rowid = 3; stamp = pos 7200000001 }
    ∷ []

converted : convert_rows zone (stamped_before (pos 7200000000)) local_rows ≡ (
  record { rowid = 1; stamp = negsuc 900000000 }
      ∷ record { rowid = 2; stamp = negsuc 4499999999 }
      ∷ record { rowid = 3; stamp = pos 7200000001 }
      ∷ [],
  2,
)
unfolding convert_rows
converted = refl

convert_rows-in_utc_example :
    (convert_rows zone (stamped_before (pos 7200000000)) local_rows).0
    ≡ map (in_utc zone (stamped_before (pos 7200000000))) local_rows
convert_rows-in_utc_example =
    convert_rows-in_utc zone (stamped_before (pos 7200000000)) local_rows zone-ChangesOnce

abbrev file_store : BackupState
file_store = record {
  read_only = false;
  is_memory = false;
  backup_in_progress = false;
  backup_connection = false;
  locked = false;
}

file_store-IsHeld : IsHeld file_store
file_store-IsHeld = record { lock = refl; connection = refl }

locked_by_begin : (perform_backup file_store ((none, begin_call) ∷ [])).locked ≡ true
unfolding perform_backup
locked_by_begin = refl

abbrev backup_calls : List (Option PyException × BackupCall)
backup_calls =
    (none, begin_call)
    ∷ (none, begin_call)
    ∷ (some (fresh driver_error), end_call)
    ∷ (none, begin_call)
    ∷ []

perform_backup-IsHeld_example :
    IsHeld (perform_backup file_store backup_calls)
    × ((close (some (fresh driver_error)) (perform_backup file_store backup_calls)).1.locked
        ≡ false)
perform_backup-IsHeld_example =
    perform_backup-IsHeld file_store backup_calls (some (fresh driver_error)) file_store-IsHeld
