-- ===== src/Buffered/Backend.antt =====
-- What `_BufferMixin` calls of the class behind it, and the state of a buffered store.
use knx_telegram_store.Prelude.{ℕ, Bool, List, Option}
use knx_telegram_store.Exceptions.{Result, ok, raise}
use knx_telegram_store.Model.{Time, StoredTelegram}
use knx_telegram_store.Query.{TelegramQuery, TelegramQueryResult}
use knx_telegram_store.Store.{StoreStats}

-- A method that changes the store returns the new state beside its result or its exception.
abbrev pub Action : Type 0 → Type 0 → Type 0
Action S A = S → Result A × S

infixl 5 ◌>>=◌ ◌>>◌
abbrev pub continue : {S A B : Type 0} → Result A → (A → Action S B) → Action S B
continue (ok a) f s = f a s
continue (raise e) f s = (raise e, s)

abbrev pub ◌>>=◌ : {S A B : Type 0} → Action S A → (A → Action S B) → Action S B
◌>>=◌ m f s = let (r, s') = m s in continue r f s'

abbrev pub ◌>>◌ : {S A B : Type 0} → Action S A → Action S B → Action S B
m >> k = m >>= λ _. k

pub record Backend : Type 1 where
  pub State : Type 0
  pub initialize : Action State Unit
  pub close : Action State Unit
  pub store_many : List StoredTelegram → Action State Unit
  pub query : TelegramQuery → State → Result TelegramQueryResult
  pub get_last_unique_telegrams : State → Result (List StoredTelegram)
  pub get_stats : State → Result StoreStats
  pub begin_backup : Action State Unit
  pub end_backup : Action State Unit
  pub optimize : Action State Unit
  pub clear : Action State Unit
  pub evict_older_than : Time → Bool → Action State ℕ
  -- The cutoff of the retention period at a time of the clock, if the store has one:
  -- `evict_expired` is `self.evict_older_than` of it, or returns 0.
  pub retention_cutoff : Time → State → Option Time

-- The fields of `_BufferMixin`; `flush_task` is whether the periodic task is there.
pub record Buffered (S : Type 0) : Type 0 where
  pub backing : S
  pub buffer : List StoredTelegram
  pub max_buffer_size : ℕ
  pub writes_allowed : Bool
  pub closing : Bool
  pub initialized : Bool
  pub flush_task : Bool
  pub buffer_full_warned : Bool
