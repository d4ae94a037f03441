-- ===== src/Memory/Contents.antt =====
-- What a memory store holds after any use: the log of all writes, cut to its last part.
use knx_telegram_store.Prelude.{
  ℕ, ◌≤◌, List, [], ◌∷◌, ◌++◌, arith, ◌≡◌, sym, ap, ◌∙◌, length, drop_all, ◌-◌,
}
use knx_telegram_store.Prelude.Int.{pos}
use knx_telegram_store.Prelude.Slices.{take_last, take_last-append, length-take_last}
use knx_telegram_store.Exceptions.{ok, ok-injective}
use knx_telegram_store.Model.{StoredTelegram}
use knx_telegram_store.Memory.{MemoryStore, init, store, store_many, clear}
use knx_telegram_store.Memory.Deque.{append, extend, append-take_last, extend-take_last}

-- The calls that write.
pub data Write : Type 0 where
  store_call : StoredTelegram → Write
  store_many_call : List StoredTelegram → Write
  clear_call : Write

unfoldable pub write : MemoryStore → Write → MemoryStore
unfolding store store_many clear
write s (store_call t) = store s t
write s (store_many_call ts) = store_many s ts
write s clear_call = clear s

unfoldable pub write_all : MemoryStore → List Write → MemoryStore
unfolding write
write_all s [] = s
write_all s (w ∷ ws) = write_all (write s w) ws

-- The unbounded log that a client may imagine.
abbrev pub note : List StoredTelegram → Write → List StoredTelegram
note log (store_call t) = log ++ t ∷ []
note log (store_many_call ts) = log ++ ts
note log clear_call = []

abbrev pub log_of : List StoredTelegram → List Write → List StoredTelegram
log_of log [] = log
log_of log (w ∷ ws) = log_of (note log w) ws

-- The store shows the end of the log.
pub record Shows (n : ℕ) (log : List StoredTelegram) (s : MemoryStore) : Type 0 where
  pub limit : s.max_telegrams ≡ n
  pub window : s.telegrams ≡ take_last n log

pub Shows-within :
    {n : ℕ} {log : List StoredTelegram} {s : MemoryStore} → Shows n log s → length s.telegrams ≤ n
Shows-within {n} {log} h =
    omega (arith, ap (length {A = StoredTelegram}) h.window, length-take_last n log)

write-Shows :
    (n : ℕ) (log : List StoredTelegram) (s : MemoryStore) (w : Write)
    → Shows n log s
    → Shows n (note log w) (write s w)
unfolding write
write-Shows n log s (store_call t) h = record {
  limit = h.limit;
  window =
      ap (λ m. append m s.telegrams t) h.limit
      ∙ append-take_last n s.telegrams t (Shows-within h)
      ∙ ap (λ (l : List StoredTelegram). take_last n (l ++ t ∷ [])) h.window
      ∙ take_last-append n log (t ∷ []);
}
write-Shows n log s (store_many_call ts) h = record {
  limit = h.limit;
  window =
      ap (λ m. extend m s.telegrams ts) h.limit
      ∙ extend-take_last n s.telegrams ts (Shows-within h)
      ∙ ap (λ (l : List StoredTelegram). take_last n (l ++ ts)) h.window
      ∙ take_last-append n log ts;
}
write-Shows n log s clear_call h = record {
  limit = h.limit;
  window = sym (drop_all (0 - n) [] (omega arith));
}

write_all-Shows :
    (n : ℕ) (log : List StoredTelegram) (s : MemoryStore) (ws : List Write)
    → Shows n log s
    → Shows n (log_of log ws) (write_all s ws)
unfolding write_all
write_all-Shows n log s [] h = h
write_all-Shows n log s (w ∷ ws) h =
    write_all-Shows n (note log w) (write s w) ws (write-Shows n log s w h)

-- After any writes to a new store of size `n`, the store holds exactly the last `n` telegrams
-- written since the last `clear`, in the order written.
pub write_all-take_last :
    (n : ℕ) (s : MemoryStore) (ws : List Write)
    → init (pos n) ≡ ok s
    → (write_all s ws).telegrams ≡ take_last n (log_of [] ws)
unfolding init
write_all-take_last n s ws e =
    let new : Shows n [] s = record {
      limit = sym (ap (λ (m : MemoryStore). m.max_telegrams) (ok-injective e));
      window =
          sym (ap (λ (m : MemoryStore). m.telegrams) (ok-injective e))
          ∙ sym (drop_all (0 - n) [] (omega arith));
    } in
    (write_all-Shows n [] s ws new).window
