-- ===== src/Buffered/Calls.antt =====
-- The public methods of `_BufferMixin`, over the backing store that stands behind it.
use knx_telegram_store.Prelude.{
  ℕ, ◌+◌, Bool, true, false, ◌||◌, List, [], Option, none, some, if◌then◌else◌, leb, ltb,
}
use knx_telegram_store.Prelude.Keep.{keep, count_if}
use knx_telegram_store.Exceptions.{
  PyException, Result, ok, raise, raised_from, fresh, runtime_error, cancelled_error,
  knx_telegram_store_exception,
}
use knx_telegram_store.Model.{Time, StoredTelegram}
use knx_telegram_store.Query.{TelegramQuery, TelegramQueryResult}
use knx_telegram_store.Store.{wrap_store_errors, StoreStats}
use knx_telegram_store.Buffered.Backend.{Backend, Buffered, Action, ◌>>=◌, ◌>>◌}
use knx_telegram_store.Buffered.Buffer.{Arrival}
use knx_telegram_store.Buffered.Flush.{super_call, flush_locked}

-- A call behind the write gate has no result as long as it waits for a backup to end.
abbrev pub Gated : Type 0 → Type 0 → Type 0
Gated S A = S → Option (Result A × S)

-- The decorator on a method that changes the store.
abbrev pub wrapped : {S A : Type 0} → Action S A → Action S A
wrapped m b = let (r, b') = m b in (wrap_store_errors r, b')

module _ {S : Type 0} where
  abbrev raise_here : {A : Type 0} → PyException → Action (Buffered S) A
  raise_here e b = (raise e, b)

  -- `_mutation` by a task that does not hold the lock already.
  abbrev pub mutation : {A : Type 0} → Action (Buffered S) A → Action (Buffered S) A
  mutation m b = if b.closing then raise_here (fresh runtime_error) b else m b

  -- `_write_gate`
  abbrev pub write_gate : {A : Type 0} → Action (Buffered S) A → Gated (Buffered S) A
  write_gate m b = if b.writes_allowed then some (wrapped (mutation m) b) else none

  -- Assignments to the flags.
  unfoldable pub set_initialized : Action (Buffered S) Unit
  set_initialized b = (ok tt, record b { initialized = true })

  unfoldable pub set_closing : Action (Buffered S) Unit
  set_closing b = (ok tt, record b { closing = true })

  unfoldable pub cancel_flush_task : Action (Buffered S) Unit
  cancel_flush_task b = (ok tt, record b { flush_task = false })

  unfoldable pub hold_writes : Action (Buffered S) Unit
  hold_writes b = (ok tt, record b { writes_allowed = false })

  -- `return await super().method(...)` of a method that only reads.
  unfoldable pub read_backing : {A : Type 0} → (S → Result A) → Action (Buffered S) A
  read_backing read b = (read b.backing, b)

  unfoldable pub start : Buffered S → Buffered S
  start b = if b.closing || b.flush_task then b else record b { flush_task = true }

-- A cancelled `evict_older_than` lets its task finish, and then raises the cancellation.
abbrev pub after_cancel : {A : Type 0} → Bool → Result A → Result A
after_cancel false r = r
after_cancel true (ok a) = raise (fresh cancelled_error)
after_cancel true (raise err) = raise (raised_from cancelled_error err)

module _ (bk : Backend) where
  open bk use {State}

  unfoldable pub initialize : List Arrival → Action (Buffered State) Unit
  unfolding super_call wrap_store_errors set_initialized
  initialize waiting = wrapped do super_call bk bk.initialize waiting; set_initialized

  unfoldable pub store_many : List StoredTelegram → List Arrival → Gated (Buffered State) Unit
  unfolding super_call wrap_store_errors
  store_many telegrams waiting = write_gate (super_call bk (bk.store_many telegrams) waiting)

  -- `_flush` of a task that does not hold the lock.
  unfoldable pub flush_entering : Bool → List (List Arrival) → Action (Buffered State) Unit
  unfolding flush_locked
  flush_entering raise_on_error arrivals = mutation (flush_locked bk raise_on_error arrivals)

  -- To restart the periodic task leaves it there.
  unfoldable pub flush : List (List Arrival) → Action (Buffered State) Unit
  unfolding flush_entering wrap_store_errors
  flush arrivals = wrapped (flush_entering true arrivals)

  -- One round of `_flush_loop`: what it raises is logged.
  unfoldable pub flush_tick : List (List Arrival) → Buffered State → Buffered State
  unfolding flush_entering
  flush_tick arrivals b = if b.closing then b else (flush_entering false arrivals b).1

  unfoldable pub flush_if : Bool → List (List Arrival) → Action (Buffered State) Unit
  unfolding flush
  flush_if flush_first arrivals b = if flush_first then flush arrivals b else (ok tt, b)

  unfoldable pub query :
      TelegramQuery → Bool → List (List Arrival) → Action (Buffered State) TelegramQueryResult
  unfolding flush_if read_backing
  query q flush_first arrivals = wrapped do flush_if flush_first arrivals; read_backing (bk.query q)

  unfoldable pub get_last_unique_telegrams :
      List (List Arrival) → Action (Buffered State) (List StoredTelegram)
  unfolding flush read_backing
  get_last_unique_telegrams arrivals =
      wrapped do flush arrivals; read_backing bk.get_last_unique_telegrams

  unfoldable pub get_stats : List (List Arrival) → Action (Buffered State) StoreStats
  unfolding flush read_backing
  get_stats arrivals = wrapped do flush arrivals; read_backing bk.get_stats

  unfoldable pub optimize : List (List Arrival) → List Arrival → Gated (Buffered State) Unit
  unfolding flush_locked super_call wrap_store_errors
  optimize arrivals waiting =
      write_gate do wrapped (flush_locked bk true arrivals); super_call bk bk.optimize waiting

  -- The body of `begin_backup` behind its check.
  unfoldable pub hand_over : List (List Arrival) → List Arrival → Action (Buffered State) Unit
  unfolding flush_locked super_call hold_writes
  hand_over arrivals waiting = do
    flush_locked bk true arrivals
    super_call bk bk.begin_backup waiting
    hold_writes

  unfoldable pub begin_backup : List (List Arrival) → List Arrival → Action (Buffered State) Unit
  unfolding hand_over wrap_store_errors
  begin_backup arrivals waiting = wrapped (
      mutation λ b.
        if b.writes_allowed
        then hand_over arrivals waiting b
        else raise_here (fresh knx_telegram_store_exception) b)

  -- The `finally` resumes writing whether the backing store raised or not.
  unfoldable pub end_backup : List Arrival → Action (Buffered State) Unit
  unfolding super_call wrap_store_errors
  end_backup waiting = wrapped λ b.
      if b.writes_allowed
      then raise_here (fresh knx_telegram_store_exception) b
      else let (r, b') = super_call bk bk.end_backup waiting b in
        (r, record b' { writes_allowed = true })

  -- The last part of `close`, under the lock.
  unfoldable pub drain : List (List Arrival) → Action (Buffered State) Unit
  unfolding flush_locked
  drain arrivals b =
      if b.initialized then flush_locked bk true arrivals b else (ok tt, record b { buffer = [] })

  unfoldable pub resume_if_held : List Arrival → Action (Buffered State) Unit
  unfolding end_backup
  resume_if_held ending b = if b.writes_allowed then (ok tt, b) else end_backup ending b

  unfoldable pub close :
      List Arrival → List (List Arrival) → List Arrival → Action (Buffered State) Unit
  unfolding set_closing resume_if_held cancel_flush_task drain super_call
  close ending arrivals waiting = wrapped do
    set_closing
    resume_if_held ending
    cancel_flush_task
    drain arrivals
    super_call bk bk.close waiting

  -- The part of `_evict_older_than` behind the backing store's own eviction.
  unfoldable pub evict_buffered : Time → Bool → ℕ → Action (Buffered State) ℕ
  evict_buffered cutoff dry_run backend_deleted b =
      let buffered_deleted = count_if (λ t. ltb t.timestamp cutoff) b.buffer in
      let kept = keep (λ t. leb cutoff t.timestamp) b.buffer in
      (ok (backend_deleted + buffered_deleted), if dry_run then b else record b { buffer = kept })

  -- `_evict_older_than`
  unfoldable pub evict_locked : Time → Bool → List Arrival → Action (Buffered State) ℕ
  unfolding super_call evict_buffered
  evict_locked cutoff dry_run waiting =
      super_call bk (bk.evict_older_than cutoff dry_run) waiting >>= evict_buffered cutoff dry_run

  -- The task behind `asyncio.shield`; a cancelled caller waits for it.
  unfoldable pub evict_shielded : Bool → Time → Bool → List Arrival → Action (Buffered State) ℕ
  unfolding evict_locked
  evict_shielded cancelled cutoff dry_run waiting b =
      let (r, b') = evict_locked cutoff dry_run waiting b in (after_cancel cancelled r, b')

  unfoldable pub evict_older_than : Bool → Time → Bool → List Arrival → Gated (Buffered State) ℕ
  unfolding evict_shielded wrap_store_errors
  evict_older_than cancelled cutoff dry_run waiting =
      write_gate (evict_shielded cancelled cutoff dry_run waiting)

  -- `super().evict_expired`, which calls `self.evict_older_than` if there is a retention period.
  unfoldable pub expire : Option Time → Bool → List Arrival → Action (Buffered State) ℕ
  unfolding evict_locked wrap_store_errors
  expire none dry_run waiting b = (ok 0, b)
  expire (some cutoff) dry_run waiting b = wrapped (evict_locked cutoff dry_run waiting) b

  unfoldable pub evict_expired : Time → Bool → List Arrival → Gated (Buffered State) ℕ
  unfolding expire wrap_store_errors
  evict_expired now dry_run waiting b =
      write_gate (expire (bk.retention_cutoff now b.backing) dry_run waiting) b

  unfoldable pub clear_both : List Arrival → Action (Buffered State) Unit
  unfolding super_call
  clear_both waiting b = super_call bk bk.clear waiting (record b { buffer = [] })

  unfoldable pub clear : List Arrival → Gated (Buffered State) Unit
  unfolding clear_both wrap_store_errors
  clear waiting = write_gate (clear_both waiting)
