-- ===== src/Connection/SqlitePath.antt =====
-- When a path passes the check for writing.
use knx_telegram_store.Prelude.{
  Bool, true, false, ◌&&◌, [], ◌∷◌, some, ◌≡◌, refl, ap, ◌∙◌, ◌⊎◌, inl, inr, if◌then◌else◌,
}
use knx_telegram_store.Exceptions.{Result, ok, raise, >>=-eq-ok, ok-injective}
use knx_telegram_store.Connection.{
  ConnectionCheckResult, permission, success, failure, PathNames, parent, FileSystem, verdict,
  caught, nearest, may_create, check_creatable, existing_or_new, check_writeable,
  evaluate_sqlite_path,
}

verdict-ok : (d w : Bool) → (verdict d w).is_ok ≡ true → (d ≡ false) × (w ≡ true)
verdict-ok true w h = absurd cc (h)
verdict-ok false true h = (refl, refl)
verdict-ok false false h = absurd cc (h)

caught-ok :
    (r : Result ConnectionCheckResult)
    → (caught r).is_ok ≡ true
    → (c : ConnectionCheckResult) × (r ≡ ok c) × (c.is_ok ≡ true)
caught-ok (ok c) h = (c, refl, h)
caught-ok (raise e) h = absurd cc (h)

module _ (fs : FileSystem) where
  -- `a` is the first of a path and its ancestors that exists.
  abbrev pub IsNearest : PathNames → PathNames → Type 0
  IsNearest [] a = [] ≡ a
  IsNearest (name ∷ above) a =
      ((name ∷ above ≡ a) × (fs.exists (name ∷ above) ≡ ok true))
      ⊎ ((fs.exists (name ∷ above) ≡ ok false) × IsNearest above a)

  nearest-IsNearest : (p a : PathNames) → nearest fs p ≡ ok a → IsNearest p a
  unfolding nearest
  nearest-IsNearest [] a h = let (there, e, k) = >>=-eq-ok (fs.exists []) _ h in ok-injective k
  nearest-IsNearest (name ∷ above) a h =
      let (there, e, k) = >>=-eq-ok (fs.exists (name ∷ above)) _ h in
      go there e k (nearest-IsNearest above a)
    where
      go :
          (there : Bool)
          → fs.exists (name ∷ above) ≡ ok there
          → (if there then ok (name ∷ above) else nearest fs above) ≡ ok a
          → (nearest fs above ≡ ok a → IsNearest above a)
          → IsNearest (name ∷ above) a
      go true e k ih = inl (ok-injective k, e)
      go false e k ih = inr (e, ih k)

  -- The file is there, it is no directory, and it can be written.
  pub record IsWriteable (path : PathNames) : Type 0 where
    pub there : fs.exists path ≡ ok true
    pub is_file : fs.is_dir path ≡ ok false
    pub allowed : fs.can_write path ≡ true

  -- The file is not there, and the first that exists of the directories above can be written.
  pub record IsCreatable (path : PathNames) : Type 0 where
    pub ancestor : PathNames
    pub missing : fs.exists path ≡ ok false
    pub is_nearest : IsNearest (parent path) ancestor
    pub there : fs.exists ancestor ≡ ok true
    pub is_directory : fs.is_dir ancestor ≡ ok true
    pub allowed : fs.can_write ancestor ≡ true

  created :
      (d w : Bool)
      → (if d && w then success else failure permission).is_ok ≡ true
      → (d ≡ true) × (w ≡ true)
  created true true h = (refl, refl)
  created true false h = absurd cc (h)
  created false w h = absurd cc (h)

  may_create-ok :
      (a : PathNames) (there : Bool) (c : ConnectionCheckResult)
      → may_create fs a there ≡ ok c
      → c.is_ok ≡ true
      → (there ≡ true) × (fs.is_dir a ≡ ok true) × (fs.can_write a ≡ true)
  may_create-ok a false c h good =
      absurd cc (ap (λ (r : ConnectionCheckResult). r.is_ok) (ok-injective h), good)
  may_create-ok a true c h good =
      let (d, e, k) = >>=-eq-ok (fs.is_dir a) _ h in
      let (is_d, w) =
        created d (fs.can_write a)
          (ap (λ (r : ConnectionCheckResult). r.is_ok) (ok-injective k) ∙ good) in
      (refl, e ∙ ap ok is_d, w)

  check_creatable-IsCreatable :
      (path : PathNames) (c : ConnectionCheckResult)
      → fs.exists path ≡ ok false
      → check_creatable fs path ≡ ok c
      → c.is_ok ≡ true
      → IsCreatable path
  unfolding check_creatable
  check_creatable-IsCreatable path c missing h good =
      let (a, e, k) = >>=-eq-ok (nearest fs (parent path)) _ h in
      let (there, f, m) = >>=-eq-ok (fs.exists a) _ k in
      let (is_there, is_d, w) = may_create-ok a there c m good in
      record {
        ancestor = a;
        missing = missing;
        is_nearest = nearest-IsNearest (parent path) a e;
        there = f ∙ ap ok is_there;
        is_directory = is_d;
        allowed = w;
      }

  existing_or_new-ok :
      (path : PathNames) (there : Bool) (c : ConnectionCheckResult)
      → fs.exists path ≡ ok there
      → existing_or_new fs path there ≡ ok c
      → c.is_ok ≡ true
      → IsWriteable path ⊎ IsCreatable path
  unfolding existing_or_new
  existing_or_new-ok path false c e h good = inr (check_creatable-IsCreatable path c e h good)
  existing_or_new-ok path true c e h good =
      let (d, f, k) = >>=-eq-ok (fs.is_dir path) _ h in
      let (no_d, w) =
        verdict-ok d (fs.can_write path)
          (ap (λ (r : ConnectionCheckResult). r.is_ok) (ok-injective k) ∙ good) in
      inl (record { there = e; is_file = f ∙ ap ok no_d; allowed = w })

  -- A path that passes the check for writing is a file that is there, is no directory and can be
  -- written, or one that is not there where the first existing directory above it can be written.
  pub evaluate_sqlite_path-ok :
      (path : PathNames)
      → (evaluate_sqlite_path fs (some path) false).is_ok ≡ true
      → IsWriteable path ⊎ IsCreatable path
  unfolding evaluate_sqlite_path check_writeable
  evaluate_sqlite_path-ok path h =
      let (c, e, good) = caught-ok (check_writeable fs path) h in
      let (there, f, k) = >>=-eq-ok (fs.exists path) _ e in existing_or_new-ok path there c f k good
