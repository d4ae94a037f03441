-- ===== src/Connection/Probe.antt =====
-- The connection probes of src/knx_telegram_store/connection.py, and the checks of
-- backends/postgres.py and backends/sqlite.py that run them.
use knx_telegram_store.Prelude.{Bool, true, false, not, Option, none, some, if◌then◌else◌}
use knx_telegram_store.Connection.{
  ConnectionErrorKind, auth, host_unreachable, database_missing, permission, timeout,
  missing_dependency, missing_timescaledb, unknown, ConnectionCheckResult, success, failure,
}

-- The classes that the code tells apart by `isinstance`: Python's, asyncpg's, and any other.
pub data CaughtClass : Type 0 where
  timeout_error : CaughtClass
  import_error : CaughtClass
  permission_error : CaughtClass
  gaierror : CaughtClass
  connection_refused_error : CaughtClass
  other_os_error : CaughtClass
  invalid_password_error : CaughtClass
  invalid_authorization_specification_error : CaughtClass
  invalid_catalog_name_error : CaughtClass
  insufficient_privilege_error : CaughtClass
  other_error : CaughtClass

-- An exception that a probe caught, with the `orig` of SQLAlchemy's wrapper.
pub record Caught : Type 0 where
  pub own : CaughtClass
  pub orig : Option CaughtClass

-- `getattr(exc, "orig", None) or exc`
abbrev pub unwrapped : Caught → CaughtClass
unwrapped c = elim c.orig [ none ↦ c.own | some inner ↦ inner ]

abbrev pub is_timeout : CaughtClass → Bool
is_timeout timeout_error = true
is_timeout _ = false

-- `isinstance(orig, OSError)`, of which a timeout and the network errors are subclasses.
abbrev pub is_os_error : CaughtClass → Bool
is_os_error timeout_error = true
is_os_error permission_error = true
is_os_error gaierror = true
is_os_error connection_refused_error = true
is_os_error other_os_error = true
is_os_error _ = false

abbrev pub asyncpg_kind : CaughtClass → Option ConnectionErrorKind
asyncpg_kind invalid_password_error = some auth
asyncpg_kind invalid_authorization_specification_error = some auth
asyncpg_kind invalid_catalog_name_error = some database_missing
asyncpg_kind insufficient_privilege_error = some permission
asyncpg_kind _ = none

abbrev pub network_kind : CaughtClass → ConnectionErrorKind
network_kind c = if is_os_error c then host_unreachable else unknown

abbrev pub driver_kind : Bool → CaughtClass → ConnectionErrorKind
driver_kind false c = network_kind c
driver_kind true c = elim (asyncpg_kind c) [ none ↦ network_kind c | some kind ↦ kind ]

abbrev pub classify_class : Bool → CaughtClass → ConnectionErrorKind
classify_class has_asyncpg timeout_error = timeout
classify_class has_asyncpg import_error = missing_dependency
classify_class has_asyncpg c = driver_kind has_asyncpg c

-- `has_asyncpg` says whether asyncpg can be imported.
unfoldable pub classify_postgres_error : Bool → Caught → ConnectionErrorKind
classify_postgres_error has_asyncpg c = classify_class has_asyncpg (unwrapped c)

unfoldable pub classify_sqlite_error : Caught → ConnectionErrorKind
classify_sqlite_error c = if is_os_error (unwrapped c) then permission else unknown

-- How the awaited probe ends.
pub data Probed (A : Type 0) : Type 0 where
  returned : A → Probed A
  failed : Caught → Probed A

abbrev pub failure_of : (Caught → ConnectionErrorKind) → Caught → ConnectionCheckResult
failure_of classify c = if is_timeout c.own then failure timeout else failure (classify c)

unfoldable pub probe_engine : (Caught → ConnectionErrorKind) → Probed Unit → ConnectionCheckResult
probe_engine classify (returned done) = success
probe_engine classify (failed c) = failure_of classify c

-- The probe returns whether it found a row.
unfoldable pub probe_timescaledb : Bool → Probed Bool → ConnectionCheckResult
unfolding classify_postgres_error
probe_timescaledb has_asyncpg (returned found) =
    if found then success else failure missing_timescaledb
probe_timescaledb has_asyncpg (failed c) = failure_of (classify_postgres_error has_asyncpg) c

abbrev pub is_missing_timescaledb : ConnectionErrorKind → Bool
is_missing_timescaledb missing_timescaledb = true
is_missing_timescaledb _ = false

unfoldable pub timescale_advisory : ConnectionCheckResult → ConnectionCheckResult
timescale_advisory result =
    if result.is_ok then success else if is_missing_timescaledb result.kind then success else result

-- `PostgresStore.check_connection` and `check_config`: the second probe runs if the first is fine.
unfoldable pub check_postgres : Bool → Probed Unit → Probed Bool → ConnectionCheckResult
unfolding probe_engine probe_timescaledb timescale_advisory
check_postgres has_asyncpg select_one extension =
    let result = probe_engine (classify_postgres_error has_asyncpg) select_one in
    let advised = timescale_advisory (probe_timescaledb has_asyncpg extension) in
    if not result.is_ok then result else advised

-- `SqliteStore.check_connection`
unfoldable pub check_sqlite : Probed Unit → ConnectionCheckResult
unfolding probe_engine classify_sqlite_error
check_sqlite select_one = probe_engine classify_sqlite_error select_one
