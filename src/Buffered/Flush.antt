-- ===== src/Buffered/Flush.antt =====
-- `store_many` and `_flush`.
use knx_telegram_store.Prelude.{
  Bool, true, false, not, ◌&&◌, ◌||◌, List, [], ◌∷◌, Option, none, some, if◌then◌else◌, is_nonempty,
}
use knx_telegram_store.Exceptions.{PyException, Result, ok, raise, is_exception}
use knx_telegram_store.Model.{StoredTelegram}
use knx_telegram_store.Store.{wrap_store_errors}
use knx_telegram_store.Buffered.Backend.{Backend, Buffered, Action}
use knx_telegram_store.Buffered.DataError.{data_error_cause}
use knx_telegram_store.Buffered.Buffer.{requeue, Arrival, arrive_all}

-- The arrivals during each write of a flush; during a write that the list does not reach there are none.
abbrev pub first_arrivals : List (List Arrival) → List Arrival
first_arrivals [] = []
first_arrivals (a ∷ rest) = a

abbrev pub later_arrivals : List (List Arrival) → List (List Arrival)
later_arrivals [] = []
later_arrivals (a ∷ rest) = rest

abbrev pub is_some {ℓ} : {A : Type ℓ} → Option A → Bool
is_some none = false
is_some (some a) = true

-- A write that fails like this fails again however often it is tried.
abbrev pub is_hopeless : PyException → Bool
is_hopeless err = is_exception err && is_some (data_error_cause err)

-- `if not isinstance(err, Exception) or raise_on_error: raise`, else it is logged.
abbrev pub raise_or_log : Bool → PyException → Result (Unit {0})
raise_or_log raise_on_error err =
    if not (is_exception err) || raise_on_error then raise err else ok tt

module _ (bk : Backend) where
  open bk use {State}

  -- `await super().method(...)`; `waiting` arrives meanwhile.
  unfoldable pub super_call :
      {A : Type 0} → Action State A → List Arrival → Action (Buffered State) A
  unfolding arrive_all
  super_call method waiting b =
      let (r, s) = method b.backing in (r, arrive_all (record b { backing = s }) waiting)

  -- One `await self.store_many(telegrams)` by a call that holds the lock while writes are allowed.
  unfoldable pub write : List StoredTelegram → List Arrival → Action (Buffered State) Unit
  unfolding wrap_store_errors super_call
  write telegrams arrivals b =
      let (r, b') = super_call (bk.store_many telegrams) arrivals b in (wrap_store_errors r, b')

  -- How the loop goes on after the write of its first telegram; `rest` is what the later rounds do.
  unfoldable pub after_one :
      Bool
      → List StoredTelegram
      → Result (Unit {0})
      → Buffered State
      → Result (Unit {0}) × Buffered State
      → Result (Unit {0}) × Buffered State
  unfolding requeue data_error_cause
  after_one raise_on_error batch (ok _) b rest = rest
  after_one raise_on_error batch (raise err) b rest =
      if is_hopeless err then rest else (raise_or_log raise_on_error err, requeue batch b)

  -- The loop that stores the telegrams of a hopeless batch one by one.
  unfoldable pub one_by_one :
      Bool → List StoredTelegram → List (List Arrival) → Action (Buffered State) Unit
  unfolding write after_one
  one_by_one raise_on_error [] arrivals b = (ok tt, record b { buffer_full_warned = false })
  one_by_one raise_on_error (t ∷ ts) arrivals b =
      let (r, b') = write (t ∷ []) (first_arrivals arrivals) b in
      let rest = one_by_one raise_on_error ts (later_arrivals arrivals) b' in
      after_one raise_on_error (t ∷ ts) r b' rest

  -- How a flush goes on after the write of its batch; `retry` is what the loop does.
  unfoldable pub after_batch :
      Bool
      → List StoredTelegram
      → Result (Unit {0})
      → Buffered State
      → Result (Unit {0}) × Buffered State
      → Result (Unit {0}) × Buffered State
  unfolding requeue data_error_cause
  after_batch raise_on_error batch (ok _) b retry = (ok tt, record b { buffer_full_warned = false })
  after_batch raise_on_error batch (raise err) b retry =
      if is_hopeless err then retry else (raise_or_log raise_on_error err, requeue batch b)

  unfoldable pub drain_buffer : Bool → List (List Arrival) → Action (Buffered State) Unit
  unfolding write one_by_one after_batch
  drain_buffer raise_on_error arrivals b =
      let batch = b.buffer in
      let (r, b') = write batch (first_arrivals arrivals) (record b { buffer = [] }) in
      let retry = one_by_one raise_on_error batch (later_arrivals arrivals) b' in
      after_batch raise_on_error batch r b' retry

  -- What `_flush` does with the lock held.
  unfoldable pub flush_locked : Bool → List (List Arrival) → Action (Buffered State) Unit
  unfolding drain_buffer
  flush_locked raise_on_error arrivals b =
      if not b.writes_allowed
      then (ok tt, b)
      else if not (is_nonempty b.buffer)
      then (ok tt, b)
      else drain_buffer raise_on_error arrivals b
