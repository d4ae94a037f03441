-- ===== src/Buffered/OverMemory.antt =====
-- `BufferedMemoryStore`: the buffer before the memory store.
use knx_telegram_store.Prelude.{
  ℕ, Bool, true, false, List, [], ◌∷◌, none, ◌≡◌, refl, ap, ◌∙◌, if◌then◌else◌, if_ind, if_true,
  if_false, leb, length,
}
use knx_telegram_store.Exceptions.{
  Result, ok, raise, raised_from, is_exception, is_store_exception, knx_telegram_store_exception,
  ◌>>=◌,
}
use knx_telegram_store.Model.{Time, StoredTelegram}
use knx_telegram_store.Query.{TelegramQuery}
use knx_telegram_store.Store.{wrap_store_errors}
use knx_telegram_store.Memory
use knx_telegram_store.Memory.{MemoryStore, paginate}
use knx_telegram_store.Memory.Select.{select}
use knx_telegram_store.Buffered.Backend.{Backend, Buffered}
use knx_telegram_store.Buffered.Buffer.{
  pop_then_append, store_sync, Arrival, stored, close_called, arrive, arrive_all,
}
use knx_telegram_store.Buffered.Calls.{Gated, write_gate}
use knx_telegram_store.Buffered.Calls
use knx_telegram_store.Buffered.Flush.{first_arrivals}

-- What the mixin finds behind it; the lifecycle methods and `optimize` do nothing there.
abbrev pub memory_backend : Backend
memory_backend = record {
  State = MemoryStore;
  initialize = λ s. (ok tt, s);
  close = λ s. (ok tt, s);
  store_many = λ ts s. (ok tt, Memory.store_many s ts);
  query = λ q s. Memory.query s q;
  get_last_unique_telegrams = λ s. ok (Memory.get_last_unique_telegrams s);
  get_stats = λ s. ok (Memory.get_stats s);
  begin_backup = λ s. (ok tt, s);
  end_backup = λ s. (ok tt, s);
  optimize = λ s. (ok tt, s);
  clear = λ s. (ok tt, Memory.clear s);
  evict_older_than =
      λ cutoff dry_run s. let (s', n) = Memory.evict_older_than s cutoff dry_run in (ok n, s');
  retention_cutoff = λ now s. none;
}

-- The override of `BufferedMemoryStore`, which leaves the buffer alone.
unfoldable pub evict_older_than : Time → Bool → Gated (Buffered MemoryStore) ℕ
unfolding wrap_store_errors Memory.evict_older_than
evict_older_than cutoff dry_run = write_gate λ b.
    let (s, n) = Memory.evict_older_than b.backing cutoff dry_run in
    (ok n, record b { backing = s })

module _ {S : Type 0} where
  pop_then_append-backing :
      (t : StoredTelegram) (xs : List StoredTelegram) (b : Buffered S)
      → (pop_then_append t xs b).1.backing ≡ b.backing
  unfolding pop_then_append
  pop_then_append-backing t [] b = refl
  pop_then_append-backing t (x ∷ xs) b = refl

  arrive-backing : (b : Buffered S) (a : Arrival) → (arrive b a).backing ≡ b.backing
  unfolding arrive store_sync
  arrive-backing b (stored t) =
      let same = λ (r : Result (Unit {0}) × Buffered S). r.1.backing ≡ b.backing in
      if_ind same b.closing (λ _. refl)
        λ _.
          if_ind same (leb b.max_buffer_size (length b.buffer))
            (λ _. pop_then_append-backing t b.buffer (record b { buffer_full_warned = true }))
            (λ _. refl)
  arrive-backing b close_called = refl

  arrive_all-backing :
      (b : Buffered S) (rest : List Arrival) → (arrive_all b rest).backing ≡ b.backing
  unfolding arrive_all
  arrive_all-backing b [] = refl
  arrive_all-backing b (a ∷ rest) = arrive_all-backing (arrive b a) rest ∙ arrive-backing b a

wrap_store_errors_idem :
    {A : Type 0} (r : Result A) → wrap_store_errors (wrap_store_errors r) ≡ wrap_store_errors r
unfolding wrap_store_errors
wrap_store_errors_idem (ok a) = refl
wrap_store_errors_idem {A} (raise e) =
    let fixed = λ (r : Result A). wrap_store_errors r ≡ r in
    let as_library : Result A = raise (raised_from knx_telegram_store_exception e) in
    let as_is : Result A = raise e in
    let inner : Result A = if is_exception e then as_library else as_is in
    if_ind fixed (is_store_exception e) {x = as_is} {y = inner}
      (λ st. if_true (is_store_exception e) as_is inner st)
      λ other.
        if_ind fixed (is_exception e) {x = as_library} {y = as_is} (λ _. refl)
          (λ base.
            if_false (is_store_exception e) as_is inner other
            ∙ if_false (is_exception e) as_library as_is base)

-- A store that is open and in no backup, whatever its other fields.
abbrev pub running :
    MemoryStore → List StoredTelegram → ℕ → Bool → Bool → Bool → Buffered MemoryStore
running s xs n initialized task warned = record {
  backing = s;
  buffer = xs;
  max_buffer_size = n;
  writes_allowed = true;
  closing = false;
  initialized = initialized;
  flush_task = task;
  buffer_full_warned = warned;
}

-- A query of an open buffered memory store that flushes first answers as a memory store does that
-- has stored the buffered telegrams behind those it had, whatever arrives while it flushes.
pub query-flush_first :
    (s : MemoryStore) (xs : List StoredTelegram) (n : ℕ) (initialized task warned : Bool)
    (q : TelegramQuery) (arrivals : List (List Arrival))
    → (Calls.query memory_backend q true arrivals (running s xs n initialized task warned)).0
      ≡ Memory.query (Memory.store_many s xs) q
unfolding Calls.query Memory.query Memory.store_many
query-flush_first s [] n i f w q arrivals =
    wrap_store_errors_idem (do results ← select s.telegrams q; ok (paginate q results))
query-flush_first s (x ∷ xs) n i f w q arrivals =
    let s' = Memory.store_many s (x ∷ xs) in
    let b = record (running s (x ∷ xs) n i f w) { backing = s'; buffer = [] } in
    ap (λ (m : MemoryStore). wrap_store_errors (Memory.query m q))
      (arrive_all-backing b (first_arrivals arrivals))
    ∙ wrap_store_errors_idem (do results ← select s'.telegrams q; ok (paginate q results))
