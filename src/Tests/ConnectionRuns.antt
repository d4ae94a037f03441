-- ===== src/Tests/ConnectionRuns.antt =====
-- The check of a SQLite path on a file system with one directory, and a check of a server.
use knx_telegram_store.Prelude.{Bool, true, false, [], ◌∷◌, some, ◌≡◌, refl, ap, ◌⊎◌, ◌↔◌}
use knx_telegram_store.Exceptions.{ok}
use knx_telegram_store.Connection.{
  PathNames, FileSystem, ConnectionCheckResult, success, failure, auth, evaluate_sqlite_path,
}
use knx_telegram_store.Connection.Probe.{
  Probed, returned, failed, invalid_password_error, other_error, is_missing_timescaledb,
  check_postgres,
}
use knx_telegram_store.Connection.Checks.{HasReturned, check_postgres-ok}
use knx_telegram_store.Connection.SqlitePath.{IsWriteable, IsCreatable, evaluate_sqlite_path-ok}

abbrev is_root : PathNames → Bool
is_root [] = true
is_root (name ∷ above) = false

abbrev only_root : FileSystem
only_root = record {
  exists = λ p. ok (is_root p);
  is_dir = λ p. ok (is_root p);
  can_read = is_root;
  can_write = is_root;
}

abbrev telegrams_db : PathNames
telegrams_db = "telegrams.db" ∷ "data" ∷ []

creatable : evaluate_sqlite_path only_root (some telegrams_db) false ≡ success
unfolding evaluate_sqlite_path
creatable = refl

not_readable : (evaluate_sqlite_path only_root (some telegrams_db) true).is_ok ≡ false
unfolding evaluate_sqlite_path
not_readable = refl

evaluate_sqlite_path-ok_example :
    IsWriteable only_root telegrams_db ⊎ IsCreatable only_root telegrams_db
evaluate_sqlite_path-ok_example =
    evaluate_sqlite_path-ok only_root telegrams_db
      (ap (λ (r : ConnectionCheckResult). r.is_ok) creatable)

abbrev refused : Probed Unit
refused = failed (record { own = other_error; orig = some invalid_password_error })

password_refused : check_postgres true refused (returned true) ≡ failure auth
unfolding check_postgres
password_refused = refl

check_postgres-ok_example :
    (((check_postgres true refused (returned false)).is_ok ≡ true)
      ↔ (HasReturned refused × HasReturned (returned false)))
    × (is_missing_timescaledb (check_postgres true refused (returned false)).kind ≡ false)
check_postgres-ok_example = check_postgres-ok true refused (returned false)
