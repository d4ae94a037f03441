-- ===== src/Tests/MigrateRuns.antt =====
-- The conversion to UTC on a file with one legacy telegram and one written since the upgrade.
use knx_telegram_store.Prelude.{
  ◌≤◌, true, false, [], ◌∷◌, none, some, ◌≡◌, refl, arith, In, inl, inr, string_eq, option_eq,
}
use knx_telegram_store.Prelude.Int.{pos}
use knx_telegram_store.Exceptions.{ok, fresh, driver_error}
use knx_telegram_store.Sql.Startup.{metadata_value}
use knx_telegram_store.Sqlite.Migrate.{
  StampedRow, StampedFile, utc_flag, utc_boundary, legacy_max_rowid, utc_source_zone, Zone,
  migrate_timestamps_to_utc, max_rowid,
}
use knx_telegram_store.Sqlite.Once.{
  migrate_timestamps_to_utc-again, migrate_timestamps_to_utc-newer,
}

-- An hour ahead of UTC all year.
abbrev zone : Zone
zone = record {
  utcoffset = λ t. pos 3600000000;
  boundary_utc = λ raw. pos 20000000000;
  boundary_local = λ raw. pos 23600000000;
  to_int = λ raw. 1;
  zone_name = "Etc/GMT-1";
}

abbrev newer_row : StampedRow
newer_row = record { rowid = 2; stamp = pos 20000000001 }

abbrev file : StampedFile
file = record {
  read_only = false;
  telegrams = record { rowid = 1; stamp = pos 20000000002 } ∷ newer_row ∷ [];
  last_ga_telegrams = [];
  metadata = (utc_boundary, "1970-01-01T05:33:20+00:00") ∷ (legacy_max_rowid, "1") ∷ [];
}

converted_one : migrate_timestamps_to_utc zone true none file ≡ (
  ok 1,
  record file {
    telegrams = record { rowid = 1; stamp = pos 16400000002 } ∷ newer_row ∷ [];
    metadata =
        (utc_boundary, "1970-01-01T05:33:20+00:00")
        ∷ (legacy_max_rowid, "1")
        ∷ (utc_flag, "true")
        ∷ (utc_source_zone, "Etc/GMT-1")
        ∷ [];
  },
)
unfolding migrate_timestamps_to_utc
converted_one = refl

returned_one : (migrate_timestamps_to_utc zone true none file).0 ≡ ok 1
unfolding migrate_timestamps_to_utc
returned_one = refl

migrate_timestamps_to_utc-again_example :
    migrate_timestamps_to_utc zone false
      (some (fresh driver_error))
      (migrate_timestamps_to_utc zone true none file).1
    ≡ (ok 0, (migrate_timestamps_to_utc zone true none file).1)
migrate_timestamps_to_utc-again_example =
    migrate_timestamps_to_utc-again zone zone true false none (some (fresh driver_error)) file 1
      returned_one

boundary_recorded : metadata_value utc_boundary file.metadata ≡ some "1970-01-01T05:33:20+00:00"
unfolding metadata_value
boundary_recorded = refl

marker_recorded : metadata_value legacy_max_rowid file.metadata ≡ some "1"
unfolding metadata_value
marker_recorded = refl

marker_reached : 1 ≤ max_rowid file.telegrams
unfolding max_rowid
marker_reached = omega arith

migrate_timestamps_to_utc-newer_example :
    In newer_row (migrate_timestamps_to_utc zone true none file).1.telegrams
migrate_timestamps_to_utc-newer_example =
    migrate_timestamps_to_utc-newer zone true none file "1970-01-01T05:33:20+00:00" "1" newer_row
      boundary_recorded refl marker_recorded marker_reached (inr (inl refl)) (omega arith)
