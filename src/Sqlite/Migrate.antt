-- ===== src/Sqlite/Migrate.antt =====
-- `migrate_timestamps_to_utc`, with `_legacy_row_scopes`: which rows the conversion takes. A stored
-- timestamp is an integer of microseconds since the year 1.
use knx_telegram_store.Prelude.{
  ℕ, suc, max, Bool, true, not, ◌&&◌, String, List, [], ◌∷◌, map, Option, none, some, leb,
  if◌then◌else◌, length, string_eq, option_eq, ◌==◌,
}
use knx_telegram_store.Prelude.Int.{ℤ, pos_part, neg_ℤ, ◌+ℤ◌, ◌*ℤ◌, ltb_ℤ}
use knx_telegram_store.Prelude.Keep.{keep}
use knx_telegram_store.Exceptions.{
  PyException, Result, ok, raise, raise_new, knx_telegram_store_exception,
  insufficient_disk_space_error,
}
use knx_telegram_store.Model.{Time, Timedelta}
use knx_telegram_store.Store.{wrap_store_errors}
use knx_telegram_store.Sql.Startup.{Metadata, metadata_value, metadata_flag_set, set_metadata_value}
use knx_telegram_store.Sqlite.Offsets.{second, Interval, offset_intervals, any_offset, case_offset}

pub record StampedRow : Type 0 where
  pub rowid : ℕ
  pub stamp : ℤ

-- What the conversion reads and writes of a file.
pub record StampedFile : Type 0 where
  pub read_only : Bool
  pub telegrams : List StampedRow
  pub last_ga_telegrams : List StampedRow
  pub metadata : Metadata

abbrev pub utc_flag : String
utc_flag = "timestamps_utc"

abbrev pub utc_boundary : String
utc_boundary = "timestamps_utc_from"

abbrev pub legacy_max_rowid : String
legacy_max_rowid = "timestamps_legacy_max_rowid"

abbrev pub utc_source_zone : String
utc_source_zone = "timestamps_utc_source_zone"

-- The `WHERE` of an update.
pub data Scope : Type 0 where
  every_row : Scope
  stamped_before : ℤ → Scope
  up_to_rowid : ℕ → ℤ → Scope

abbrev pub in_scope : Scope → StampedRow → Bool
in_scope every_row r = true
in_scope (stamped_before boundary) r = ltb_ℤ r.stamp boundary
in_scope (up_to_rowid marker boundary) r = leb r.rowid marker && ltb_ℤ r.stamp boundary

-- `SELECT max(rowid)`, 0 of an empty table.
unfoldable pub max_rowid : List StampedRow → ℕ
max_rowid [] = 0
max_rowid (r ∷ rs) = max r.rowid (max_rowid rs)

unfoldable pub least_stamp : ℤ → List StampedRow → ℤ
least_stamp m [] = m
least_stamp m (r ∷ rs) = least_stamp (if ltb_ℤ r.stamp m then r.stamp else m) rs

unfoldable pub greatest_stamp : ℤ → List StampedRow → ℤ
greatest_stamp m [] = m
greatest_stamp m (r ∷ rs) = greatest_stamp (if ltb_ℤ m r.stamp then r.stamp else m) rs

abbrev pub shifted_row : List Interval → StampedRow → StampedRow
shifted_row intervals r = record r {
  stamp = r.stamp +ℤ neg_ℤ (case_offset intervals (pos_part r.stamp) *ℤ second);
}

-- The update of the rows in scope, whose bounds are those of `oldest :: others`.
abbrev pub update_rows :
    (Time → Timedelta) → Scope → List StampedRow → List StampedRow → List StampedRow × ℕ
update_rows utcoffset scope [] rows = (rows, 0)
update_rows utcoffset scope (first ∷ others) rows =
    let intervals =
      offset_intervals utcoffset (pos_part (least_stamp first.stamp others))
        (pos_part (greatest_stamp first.stamp others)) in
    if not (any_offset intervals) then (rows, 0) else (
      map (λ r. if in_scope scope r then shifted_row intervals r else r) rows,
      suc (length others),
    )

unfoldable pub convert_rows : (Time → Timedelta) → Scope → List StampedRow → List StampedRow × ℕ
unfolding least_stamp greatest_stamp offset_intervals case_offset
convert_rows utcoffset scope rows = update_rows utcoffset scope (keep (in_scope scope) rows) rows

-- A zone, with what Python makes of texts: the boundary as UTC and as the zone's digits, the marker as
-- a number, and the name of the zone.
pub record Zone : Type 0 where
  pub utcoffset : Time → Timedelta
  pub boundary_utc : String → ℤ
  pub boundary_local : String → ℤ
  pub to_int : String → ℕ
  pub zone_name : String

module _ (zone : Zone) where
  abbrev pub telegram_scope : String → Option String → List StampedRow → Scope
  telegram_scope raw none rows = stamped_before (zone.boundary_utc raw)
  telegram_scope raw (some marker) rows =
      if leb (zone.to_int marker) (max_rowid rows)
      then up_to_rowid (zone.to_int marker) (zone.boundary_local raw)
      else stamped_before (zone.boundary_utc raw)

  abbrev pub scopes_of : Option String → Option String → List StampedRow → Scope × Scope
  scopes_of none marker rows = (every_row, every_row)
  scopes_of (some raw) marker rows =
      if raw == ""
      then (every_row, every_row)
      else (telegram_scope raw marker rows, stamped_before (zone.boundary_utc raw))

  unfoldable pub legacy_row_scopes : StampedFile → Scope × Scope
  unfolding metadata_value max_rowid
  legacy_row_scopes f =
      scopes_of (metadata_value utc_boundary f.metadata)
        (metadata_value legacy_max_rowid f.metadata) f.telegrams

  -- The file after the transaction.
  unfoldable pub migrated : StampedFile → StampedFile
  unfolding legacy_row_scopes convert_rows set_metadata_value
  migrated f = record f {
    telegrams = (convert_rows zone.utcoffset (legacy_row_scopes f).0 f.telegrams).0;
    last_ga_telegrams = (convert_rows zone.utcoffset (legacy_row_scopes f).1 f.last_ga_telegrams).0;
    metadata =
        set_metadata_value utc_source_zone zone.zone_name
          (set_metadata_value utc_flag "true" f.metadata);
  }

  abbrev pub commit_migration : Option PyException → StampedFile → Result ℕ × StampedFile
  commit_migration none f =
      (ok (convert_rows zone.utcoffset (legacy_row_scopes f).0 f.telegrams).1, migrated f)
  commit_migration (some e) f = (raise e, f)

  -- `room` says whether the volume has the space that the conversion asks for.
  unfoldable pub migrate_timestamps_to_utc :
      Bool → Option PyException → StampedFile → Result ℕ × StampedFile
  unfolding migrated metadata_value wrap_store_errors
  migrate_timestamps_to_utc room answer f =
      let (r, done) =
        if f.read_only
        then (raise_new knx_telegram_store_exception, f)
        else if metadata_flag_set utc_flag f.metadata
        then (ok 0, f)
        else if not room
        then (raise_new insufficient_disk_space_error, f)
        else commit_migration answer f in
      (wrap_store_errors r, done)
