-- ===== src/Exceptions.antt =====
-- The exceptions that the library raises or passes on, and a method's result. An exception is its
-- class and the exceptions that it links to; message texts are left out.
use knx_telegram_store.Prelude.{Bool, true, false, ◌≡◌, refl}

-- The Python classes that the code tells apart. `data_error` and `integrity_error` are
-- SQLAlchemy's, `driver_error` is any other exception of a database driver.
pub data ExceptionClass : Type 0 where
  cancelled_error : ExceptionClass
  type_error : ExceptionClass
  value_error : ExceptionClass
  index_error : ExceptionClass
  key_error : ExceptionClass
  overflow_error : ExceptionClass
  runtime_error : ExceptionClass
  not_implemented_error : ExceptionClass
  os_error : ExceptionClass
  data_error : ExceptionClass
  integrity_error : ExceptionClass
  driver_error : ExceptionClass
  knx_telegram_store_exception : ExceptionClass
  insufficient_disk_space_error : ExceptionClass

-- `__cause__`, `__context__` and SQLAlchemy's `orig`, in this order.
mutual
  pub data PyException : Type 0 where
    exc : ExceptionClass → Link → Link → Link → PyException

  pub data Link : Type 0 where
    no_link : Link
    link : PyException → Link

abbrev pub class_of : PyException → ExceptionClass
class_of (exc c _ _ _) = c

-- An exception that is raised outside every handler.
abbrev pub fresh : ExceptionClass → PyException
fresh c = exc c no_link no_link no_link

-- `raise ... from err`, which sets the context to the handled exception too.
abbrev pub raised_from : ExceptionClass → PyException → PyException
raised_from c err = exc c (link err) (link err) no_link

-- `isinstance(err, Exception)`: a cancellation is a BaseException only.
abbrev pub is_exception : PyException → Bool
is_exception (exc cancelled_error _ _ _) = false
is_exception (exc _ _ _ _) = true

-- `isinstance(err, KnxTelegramStoreException)`
abbrev pub is_store_exception : PyException → Bool
is_store_exception (exc knx_telegram_store_exception _ _ _) = true
is_store_exception (exc insufficient_disk_space_error _ _ _) = true
is_store_exception (exc _ _ _ _) = false

pub data Result {α} (A : Type α) : Type α where
  ok : A → Result A
  raise : PyException → Result A

abbrev pub raise_new {ℓ} : {A : Type ℓ} → ExceptionClass → Result A
raise_new c = raise (fresh c)

infixl 5 ◌>>=◌
-- What follows a call that may raise.
abbrev pub ◌>>=◌ {α β} : {A : Type α} → {B : Type β} → Result A → (A → Result B) → Result B
raise e >>= next = raise e
ok result >>= next = next result

-- Neither a call that returned nor what followed it has raised.
pub >>=-eq-ok {α β} :
    {A : Type α} {B : Type β} (call : Result A) (next : A → Result B) {final : B}
    → call >>= next ≡ ok final
    → (result : A) × (call ≡ ok result) × (next result ≡ ok final)
>>=-eq-ok (raise err) next returned = cc
>>=-eq-ok (ok result) next returned = (result, refl, returned)

pub ok-injective {ℓ} : {A : Type ℓ} {a b : A} → ok a ≡ ok b → a ≡ b
ok-injective h = cc
