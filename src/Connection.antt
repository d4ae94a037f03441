-- ===== src/Connection.antt =====
-- `evaluate_sqlite_path` of src/knx_telegram_store/connection.py, over a file system. Message texts
-- are left out.
pub mod SqlitePath
pub mod Probe
pub mod Checks
use knx_telegram_store.Prelude.{
  Bool, true, false, not, ◌&&◌, String, List, [], ◌∷◌, Option, none, some, if◌then◌else◌,
}
use knx_telegram_store.Exceptions.{PyException, Result, ok, raise, ◌>>=◌}

pub data ConnectionErrorKind : Type 0 where
  no_error : ConnectionErrorKind
  auth : ConnectionErrorKind
  host_unreachable : ConnectionErrorKind
  database_missing : ConnectionErrorKind
  permission : ConnectionErrorKind
  timeout : ConnectionErrorKind
  missing_dependency : ConnectionErrorKind
  missing_timescaledb : ConnectionErrorKind
  unknown : ConnectionErrorKind

pub record ConnectionCheckResult : Type 0 where
  pub is_ok : Bool
  pub kind : ConnectionErrorKind

abbrev pub success : ConnectionCheckResult
success = record { is_ok = true; kind = no_error }

abbrev pub failure : ConnectionErrorKind → ConnectionCheckResult
failure kind = record { is_ok = false; kind = kind }

-- The names of a path, the last one first; no name is left at a root, which is its own parent.
abbrev pub PathNames : Type 0
PathNames = List String

abbrev pub parent : PathNames → PathNames
parent [] = []
parent (name ∷ above) = above

-- What the operating system answers: `Path.exists` and `Path.is_dir`, which may raise an OSError,
-- and `os.access`.
pub record FileSystem : Type 0 where
  pub exists : PathNames → Result Bool
  pub is_dir : PathNames → Result Bool
  pub can_read : PathNames → Bool
  pub can_write : PathNames → Bool

abbrev pub verdict : Bool → Bool → ConnectionCheckResult
verdict is_directory allowed =
    if is_directory then failure permission else if allowed then success else failure permission

-- `except OSError`
abbrev pub caught : Result ConnectionCheckResult → ConnectionCheckResult
caught (ok r) = r
caught (raise e) = failure permission

module _ (fs : FileSystem) where
  abbrev pub readable : PathNames → Bool → Result ConnectionCheckResult
  readable path false = ok (failure permission)
  readable path true = do
    is_directory ← fs.is_dir path
    ok (verdict is_directory (fs.can_read path))

  -- The part for `read_only`.
  unfoldable pub check_readable : PathNames → Result ConnectionCheckResult
  check_readable path = do there ← fs.exists path; readable path there

  -- The loop to the nearest ancestor that exists, which stops at a root that does not.
  unfoldable pub nearest : PathNames → Result PathNames
  nearest [] = do there ← fs.exists []; ok []
  nearest (name ∷ above) =
      let further = nearest above in
      do there ← fs.exists (name ∷ above); if there then ok (name ∷ above) else further

  abbrev pub may_create : PathNames → Bool → Result ConnectionCheckResult
  may_create ancestor false = ok (failure permission)
  may_create ancestor true = do
    is_directory ← fs.is_dir ancestor
    ok (if is_directory && fs.can_write ancestor then success else failure permission)

  unfoldable pub check_creatable : PathNames → Result ConnectionCheckResult
  unfolding nearest
  check_creatable path = do
    ancestor ← nearest (parent path)
    there ← fs.exists ancestor
    may_create ancestor there

  unfoldable pub existing_or_new : PathNames → Bool → Result ConnectionCheckResult
  unfolding check_creatable
  existing_or_new path false = check_creatable path
  existing_or_new path true = do
    is_directory ← fs.is_dir path
    ok (verdict is_directory (fs.can_write path))

  unfoldable pub check_writeable : PathNames → Result ConnectionCheckResult
  unfolding existing_or_new
  check_writeable path = do there ← fs.exists path; existing_or_new path there

  -- `none` is the path ":memory:".
  unfoldable pub evaluate_sqlite_path : Option PathNames → Bool → ConnectionCheckResult
  unfolding check_readable check_writeable
  evaluate_sqlite_path none read_only = if read_only then failure unknown else success
  evaluate_sqlite_path (some path) read_only =
      caught (if read_only then check_readable path else check_writeable path)
