-- ===== src/Buffered/DataError.antt =====
-- `_data_error_cause`: whether a write failed because of the telegrams. The exceptions that an
-- exception links to form a finite tree here, so `seen`, which keeps the walk of the source off an
-- object that it has met, is not needed: to meet an object again finds nothing new.
use mathlib.Core.Path.{subst}
use knx_telegram_store.Prelude.{
  Bool, true, false, Option, none, some, if◌then◌else◌, ◌≡◌, ◌⊎◌, inl, inr, refl, if_ind,
}
use knx_telegram_store.Exceptions.{
  PyException, Link, exc, link, no_link, ExceptionClass, type_error, value_error, data_error,
  integrity_error,
}

-- `isinstance(current, data_error_types)`
abbrev pub is_data_error_class : ExceptionClass → Bool
is_data_error_class type_error = true
is_data_error_class value_error = true
is_data_error_class data_error = true
is_data_error_class integrity_error = true
is_data_error_class _ = false

abbrev pub or_else {ℓ} : {A : Type ℓ} → Option A → Option A → Option A
or_else none b = b
or_else (some a) b = some a

-- `pending` is a stack: the original exception is looked at first, then the context, then the cause.
unfoldable mutual
  pub data_error_cause : PyException → Option PyException
  data_error_cause (exc c cause context orig) =
      let below = or_else (link_cause orig) (or_else (link_cause context) (link_cause cause)) in
      if is_data_error_class c then some (exc c cause context orig) else below

  pub link_cause : Link → Option PyException
  link_cause no_link = none
  link_cause (link e) = data_error_cause e

-- An exception is another one, or is linked to it by `orig`, `__context__` and `__cause__`.
abbrev mutual
  pub Within : PyException → PyException → Type 0
  Within c (exc k cause context orig) =
      (exc k cause context orig ≡ c)
      ⊎ (WithinLink c orig ⊎ (WithinLink c context ⊎ WithinLink c cause))

  pub WithinLink : PyException → Link → Type 0
  WithinLink c no_link = ⊥
  WithinLink c (link e) = Within c e

abbrev pub is_data_error : PyException → Bool
is_data_error (exc k _ _ _) = is_data_error_class k

-- A search of the exceptions of `P` found a data error among them, or there is none.
abbrev pub Searched : (PyException → Type 0) → Option PyException → Type 0
Searched P none = (c : PyException) → P c → is_data_error c ≡ false
Searched P (some c) = P c × (is_data_error c ≡ true)

Searched-or_else :
    (P Q : PyException → Type 0) (a b : Option PyException)
    → Searched P a
    → Searched Q b
    → Searched (λ c. P c ⊎ Q c) (or_else a b)
Searched-or_else P Q none none sa sb = λ c. elim [ inl p ↦ sa c p | inr q ↦ sb c q ]
Searched-or_else P Q none (some b) sa sb = (inr sb.0, sb.1)
Searched-or_else P Q (some a) b sa sb = (inl sa.0, sa.1)

mutual
  unfolding data_error_cause link_cause

  Searched-exception : (e : PyException) → Searched (λ c. Within c e) (data_error_cause e)
  Searched-exception (exc k cause context orig) =
      let e = exc k cause context orig in
      let below =
        Searched-or_else (λ c. WithinLink c orig) (λ c. WithinLink c context ⊎ WithinLink c cause)
          (link_cause orig) (or_else (link_cause context) (link_cause cause)) (Searched-link orig)
          (Searched-or_else (λ c. WithinLink c context) (λ c. WithinLink c cause)
            (link_cause context) (link_cause cause) (Searched-link context)
            (Searched-link cause)) in
      if_ind (Searched (λ c. Within c e)) (is_data_error_class k) (λ is_data. (inl refl, is_data))
        (λ other.
          Searched-or_else (λ c. e ≡ c)
            (λ c. WithinLink c orig ⊎ (WithinLink c context ⊎ WithinLink c cause)) none
            (or_else (link_cause orig) (or_else (link_cause context) (link_cause cause)))
            (λ c same. subst (λ x. is_data_error x ≡ false) same other) below)

  Searched-link : (l : Link) → Searched (λ c. WithinLink c l) (link_cause l)
  Searched-link no_link = λ c impossible. absurd impossible
  Searched-link (link e) = Searched-exception e

-- The search through the linked exceptions is complete and sound: when it finds nothing, no
-- exception that the failure is or links to, through however many links, is a data error; what it
-- finds is one of these exceptions and is a data error.
pub data_error_cause-Searched : (e : PyException) → Searched (λ c. Within c e) (data_error_cause e)
data_error_cause-Searched e = Searched-exception e
