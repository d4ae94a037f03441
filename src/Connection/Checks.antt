-- ===== src/Connection/Checks.antt =====
-- What the checks of a connection report.
use knx_telegram_store.Prelude.{
  Bool, true, false, not, if◌then◌else◌, ◌≡◌, ◌↔◌, refl, ap, ◌∙◌, if_true,
}
use knx_telegram_store.Connection.{timeout, ConnectionCheckResult, failure}
use knx_telegram_store.Connection.Probe.{
  Caught, CaughtClass, timeout_error, import_error, permission_error, gaierror,
  connection_refused_error, other_os_error, invalid_password_error,
  invalid_authorization_specification_error, invalid_catalog_name_error,
  insufficient_privilege_error, other_error, Probed, returned, failed, unwrapped, is_timeout,
  classify_class, classify_postgres_error, failure_of, probe_engine, probe_timescaledb,
  is_missing_timescaledb, timescale_advisory, check_postgres,
}

-- The second probe reached the server.
abbrev pub HasReturned : {A : Type 0} → Probed A → Type 0
HasReturned (returned a) = Unit
HasReturned (failed c) = ⊥

classify_class-not :
    (has_asyncpg : Bool) (c : CaughtClass)
    → is_missing_timescaledb (classify_class has_asyncpg c) ≡ false
classify_class-not has_asyncpg timeout_error = refl
classify_class-not has_asyncpg import_error = refl
classify_class-not true permission_error = refl
classify_class-not true gaierror = refl
classify_class-not true connection_refused_error = refl
classify_class-not true other_os_error = refl
classify_class-not true invalid_password_error = refl
classify_class-not true invalid_authorization_specification_error = refl
classify_class-not true invalid_catalog_name_error = refl
classify_class-not true insufficient_privilege_error = refl
classify_class-not true other_error = refl
classify_class-not false permission_error = refl
classify_class-not false gaierror = refl
classify_class-not false connection_refused_error = refl
classify_class-not false other_os_error = refl
classify_class-not false invalid_password_error = refl
classify_class-not false invalid_authorization_specification_error = refl
classify_class-not false invalid_catalog_name_error = refl
classify_class-not false insufficient_privilege_error = refl
classify_class-not false other_error = refl

-- A failed check that does not name TimescaleDB.
abbrev Fails : ConnectionCheckResult → Type 0
Fails r = (r.is_ok ≡ false) × (is_missing_timescaledb r.kind ≡ false)

failure_of-Fails :
    (has_asyncpg : Bool) (c : Caught) → Fails (failure_of (classify_postgres_error has_asyncpg) c)
unfolding classify_postgres_error
failure_of-Fails has_asyncpg c = by_timeout (is_timeout c.own)
  where
    by_timeout :
        (b : Bool)
        → Fails (if b then failure timeout else failure (classify_class has_asyncpg (unwrapped c)))
    by_timeout true = (refl, refl)
    by_timeout false = (refl, classify_class-not has_asyncpg (unwrapped c))

advisory-Fails : (r : ConnectionCheckResult) → Fails r → timescale_advisory r ≡ r
unfolding timescale_advisory
advisory-Fails r h = rw (h.0, h.1) refl

-- A check of a PostgreSQL store reports success if and only if both probes return, whether the second
-- finds TimescaleDB or not, and no check reports the kind of a missing TimescaleDB.
pub check_postgres-ok :
    (has_asyncpg : Bool) (select_one : Probed Unit) (extension : Probed Bool)
    → (((check_postgres has_asyncpg select_one extension).is_ok ≡ true)
        ↔ (HasReturned select_one × HasReturned extension))
      × (is_missing_timescaledb (check_postgres has_asyncpg select_one extension).kind ≡ false)
unfolding check_postgres probe_engine probe_timescaledb timescale_advisory
check_postgres-ok has_asyncpg (returned a) (returned true) = ((λ h. (tt, tt), λ h. refl), refl)
check_postgres-ok has_asyncpg (returned a) (returned false) = ((λ h. (tt, tt), λ h. refl), refl)
check_postgres-ok has_asyncpg (returned a) (failed c) =
    let r = failure_of (classify_postgres_error has_asyncpg) c in
    let fails = failure_of-Fails has_asyncpg c in
    let same = advisory-Fails r fails in
    let bad = ap (λ (x : ConnectionCheckResult). x.is_ok) same ∙ fails.0 in
    (
      (λ h. absurd (cc (h, bad)), λ h. absurd h.1),
      ap (λ (x : ConnectionCheckResult). is_missing_timescaledb x.kind) same ∙ fails.1,
    )
check_postgres-ok has_asyncpg (failed c) extension =
    let r = failure_of (classify_postgres_error has_asyncpg) c in
    let fails = failure_of-Fails has_asyncpg c in
    let same =
      if_true (not r.is_ok) r (timescale_advisory (probe_timescaledb has_asyncpg extension))
        (ap not fails.0) in
    let bad = ap (λ (x : ConnectionCheckResult). x.is_ok) same ∙ fails.0 in
    (
      (λ h. absurd (cc (h, bad)), λ h. absurd h.0),
      ap (λ (x : ConnectionCheckResult). is_missing_timescaledb x.kind) same ∙ fails.1,
    )
