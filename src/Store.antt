-- ===== src/Store.antt =====
-- src/knx_telegram_store/store.py: the error wrapper of every public method, and what a store reports.
use knx_telegram_store.Prelude.{ℕ, Bool, String, Option, ◌≡◌, refl, if_ind, if◌then◌else◌}
use knx_telegram_store.Model.{Time}
use knx_telegram_store.Exceptions.{
  PyException, Result, ok, raise, raised_from, is_exception, is_store_exception,
  knx_telegram_store_exception,
}

-- `@wrap_store_errors`
unfoldable pub wrap_store_errors {ℓ} : {A : Type ℓ} → Result A → Result A
wrap_store_errors (ok a) = ok a
wrap_store_errors (raise err) =
    if is_store_exception err
    then raise err
    else if is_exception err
    then raise (raised_from knx_telegram_store_exception err)
    else raise err

-- A wrapped exception is an exception.
pub wrap-raise :
    {A : Type 0} (e : PyException)
    → (err : PyException) × (◌≡◌ {A = Result A} (wrap_store_errors (raise e)) (raise err))
unfolding wrap_store_errors
wrap-raise {A} e =
    let R = λ (r : Result A). (err : PyException) × (r ≡ raise err) in
    if_ind R (is_store_exception e) (λ _. (e, refl))
      λ _.
        if_ind R (is_exception e) (λ _. (raised_from knx_telegram_store_exception e, refl))
          (λ _. (e, refl))

pub record StoreCapabilities : Type 0 where
  pub supports_time_range : Bool
  pub supports_time_delta : Bool
  pub supports_pagination : Bool
  pub supports_count : Bool
  pub supports_size_stats : Bool
  pub supports_optimize : Bool
  pub read_only : Bool
  pub max_storage : Option ℕ

pub record StoreStats : Type 0 where
  pub telegram_count : ℕ
  pub oldest_timestamp : Option Time
  pub newest_timestamp : Option Time
  pub size_bytes : Option ℕ
  pub backend : String
  pub retention_days : Option ℕ
