-- ===== src/Sqlite/Once.antt =====
-- The conversion to UTC runs once, and not on the rows that were written since the upgrade.
use knx_telegram_store.Prelude.{
  ℕ, ◌≤◌, ◌<◌, Bool, true, false, not, String, List, [], ◌∷◌, Option, none, some, if◌then◌else◌,
  string_eq, option_eq, ◌==◌, ◌≡◌, refl, ap, ◌∙◌, arith, In, In-map, if_ind, if_false, le→leb,
}
use knx_telegram_store.Prelude.Int.{pos_part}
use knx_telegram_store.Prelude.Keep.{keep}
use knx_telegram_store.Exceptions.{PyException, Result, ok, raise}
use knx_telegram_store.Model.{Time, Timedelta}
use knx_telegram_store.Store.{wrap_store_errors}
use knx_telegram_store.Sql.Startup.{metadata_value, metadata_flag_set, set_metadata_value}
use knx_telegram_store.Sql.Metadata.{metadata_value-set_metadata_value, metadata_value-other}
use knx_telegram_store.Sqlite.Offsets.{offset_intervals, any_offset}
use knx_telegram_store.Sqlite.Migrate.{
  StampedRow, StampedFile, utc_flag, utc_boundary, legacy_max_rowid, utc_source_zone, Scope,
  up_to_rowid, in_scope, max_rowid, least_stamp, greatest_stamp, shifted_row, update_rows,
  convert_rows, Zone, legacy_row_scopes, migrated, commit_migration, migrate_timestamps_to_utc,
}

abbrev pub IsConverted : StampedFile → Type 0
IsConverted f = (f.read_only ≡ false) × (metadata_flag_set utc_flag f.metadata ≡ true)

migrated-flag :
    (zone : Zone) (f : StampedFile) → metadata_flag_set utc_flag (migrated zone f).metadata ≡ true
unfolding migrated
migrated-flag zone f =
    ap (λ v. v == some "true")
      (metadata_value-other utc_flag utc_source_zone zone.zone_name
          (set_metadata_value utc_flag "true" f.metadata) refl
        ∙ metadata_value-set_metadata_value utc_flag "true" f.metadata)

migrated-open : (zone : Zone) (f : StampedFile) → (migrated zone f).read_only ≡ f.read_only
unfolding migrated
migrated-open zone f = refl

never : (e : PyException) (n : ℕ) → wrap_store_errors (raise e) ≡ ok n → ⊥
unfolding wrap_store_errors
never e n h = ground arith

module _ (zone : Zone) (room : Bool) (answer : Option PyException) where
  -- A file that is converted is left alone.
  migrate-converted :
      (f : StampedFile) → IsConverted f → migrate_timestamps_to_utc zone room answer f ≡ (ok 0, f)
  unfolding migrate_timestamps_to_utc wrap_store_errors
  migrate-converted f h = rw (h.0, h.1) refl

  migrate-Converts :
      (f : StampedFile) (n : ℕ)
      → (migrate_timestamps_to_utc zone room answer f).0 ≡ ok n
      → IsConverted (migrate_timestamps_to_utc zone room answer f).1
  unfolding migrate_timestamps_to_utc wrap_store_errors
  migrate-Converts f n =
      let P = λ (o : Result ℕ × StampedFile). wrap_store_errors o.0 ≡ ok n → IsConverted o.1 in
      if_ind P f.read_only (λ _ h. absurd (cc (h)))
        (λ open_for.
          if_ind P (metadata_flag_set utc_flag f.metadata) (λ set h. (open_for, set))
            (λ _. if_ind P (not room) (λ _ h. absurd (cc (h))) (λ _. commits f n open_for answer)))
    where
      commits :
          (f : StampedFile) (n : ℕ)
          → f.read_only ≡ false
          → (answer : Option PyException)
          → wrap_store_errors (commit_migration zone answer f).0 ≡ ok n
          → IsConverted (commit_migration zone answer f).1
      commits f n open_for none h = (migrated-open zone f ∙ open_for, migrated-flag zone f)
      commits f n open_for (some e) h = absurd (never e n h)

-- A conversion that returns is the last one: a second call, with any zone and whatever the volume or
-- the database would answer, converts nothing and changes nothing.
pub migrate_timestamps_to_utc-again :
    (zone other : Zone) (room room_then : Bool) (answer answer_then : Option PyException)
    (f : StampedFile) (n : ℕ)
    → (migrate_timestamps_to_utc zone room answer f).0 ≡ ok n
    → migrate_timestamps_to_utc other room_then answer_then
        (migrate_timestamps_to_utc zone room answer f).1
      ≡ (ok 0, (migrate_timestamps_to_utc zone room answer f).1)
migrate_timestamps_to_utc-again zone other room room_then answer answer_then f n h =
    migrate-converted other room_then answer_then (migrate_timestamps_to_utc zone room answer f).1
      (migrate-Converts zone room answer f n h)

update_rows-In :
    (utcoffset : Time → Timedelta) (scope : Scope) (bounds rows : List StampedRow) (r : StampedRow)
    → In r rows
    → in_scope scope r ≡ false
    → In r (update_rows utcoffset scope bounds rows).0
update_rows-In utcoffset scope [] rows r i out = i
update_rows-In utcoffset scope (first ∷ others) rows r i out =
    let intervals =
      offset_intervals utcoffset (pos_part (least_stamp first.stamp others))
        (pos_part (greatest_stamp first.stamp others)) in
    let update = λ (x : StampedRow). if in_scope scope x then shifted_row intervals x else x in
    if_ind (λ (o : List StampedRow × ℕ). In r o.0) (not (any_offset intervals)) (λ _. i)
      (λ _.
        (In-map update r rows).1
          (r, i, if_false (in_scope scope r) (shifted_row intervals r) r out))

module _ (zone : Zone) (f : StampedFile) (raw marker : String)
    (upgraded : metadata_value utc_boundary f.metadata ≡ some raw) (written : (raw == "") ≡ false)
    (marked : metadata_value legacy_max_rowid f.metadata ≡ some marker)
    (reached : zone.to_int marker ≤ max_rowid f.telegrams) where
  scopes-marked :
      (legacy_row_scopes zone f).0 ≡ up_to_rowid (zone.to_int marker) (zone.boundary_local raw)
  unfolding legacy_row_scopes
  scopes-marked =
      rw (upgraded, marked, written, le→leb (zone.to_int marker) (max_rowid f.telegrams) reached)
        refl

  migrated-newer :
      (r : StampedRow)
      → In r f.telegrams
      → zone.to_int marker < r.rowid
      → In r (migrated zone f).telegrams
  unfolding migrated convert_rows
  migrated-newer r i newer =
      let scope = (legacy_row_scopes zone f).0 in
      let out : in_scope scope r ≡ false = rw scopes-marked (ground (arith, newer)) in
      update_rows-In zone.utcoffset scope (keep (in_scope scope) f.telegrams) f.telegrams r i out

-- A telegram whose rowid is above the marker that the upgrade recorded keeps its timestamp through a
-- call of the conversion, however it ends, if the marker is not above every rowid.
pub migrate_timestamps_to_utc-newer :
    (zone : Zone) (room : Bool) (answer : Option PyException) (f : StampedFile)
    (raw marker : String) (r : StampedRow)
    → metadata_value utc_boundary f.metadata ≡ some raw
    → (raw == "") ≡ false
    → metadata_value legacy_max_rowid f.metadata ≡ some marker
    → zone.to_int marker ≤ max_rowid f.telegrams
    → In r f.telegrams
    → zone.to_int marker < r.rowid
    → In r (migrate_timestamps_to_utc zone room answer f).1.telegrams
unfolding migrate_timestamps_to_utc
migrate_timestamps_to_utc-newer zone room answer f raw marker r upgraded written marked reached i
      newer =
    let P = λ (o : Result ℕ × StampedFile). In r o.1.telegrams in
    if_ind P f.read_only (λ _. i)
      (λ _.
        if_ind P (metadata_flag_set utc_flag f.metadata) (λ _. i)
          (λ _. if_ind P (not room) (λ _. i) (λ _. commits answer)))
  where
    commits : (answer : Option PyException) → In r (commit_migration zone answer f).1.telegrams
    commits none = migrated-newer zone f raw marker upgraded written marked reached r i newer
    commits (some e) = i
