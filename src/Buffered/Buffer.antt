-- ===== src/Buffered/Buffer.antt =====
-- The buffer itself: `store`, `store_sync` and `_requeue`, which never touch the backing store.
use knx_telegram_store.Prelude.{
  ℕ, true, List, [], ◌∷◌, ◌++◌, length, leb, ltb, if◌then◌else◌, ◌==◌, nat_eq,
}
use knx_telegram_store.Prelude.Slices.{take_last}
use knx_telegram_store.Exceptions.{Result, ok, raise_new, index_error}
use knx_telegram_store.Model.{StoredTelegram}
use knx_telegram_store.Store.{wrap_store_errors}
use knx_telegram_store.Buffered.Backend.{Buffered, Action}

-- `xs[-n:]`, which is all of `xs` at n = 0, since -0 is 0.
abbrev pub from_end : ℕ → List StoredTelegram → List StoredTelegram
from_end n xs = if n == 0 then xs else take_last n xs

module _ {S : Type 0} where
  -- `self._buffer.pop(0)`, then `self._buffer.append(telegram)`.
  unfoldable pub pop_then_append :
      StoredTelegram → List StoredTelegram → Buffered S → Result (Unit {0}) × Buffered S
  pop_then_append t [] b = (raise_new index_error, b)
  pop_then_append t (oldest ∷ rest) b = (ok tt, record b { buffer = rest ++ t ∷ [] })

  unfoldable pub store_sync : StoredTelegram → Action (Buffered S) Unit
  unfolding pop_then_append
  store_sync t b =
      if b.closing
      then (ok tt, b)
      else if leb b.max_buffer_size (length b.buffer)
      then pop_then_append t b.buffer (record b { buffer_full_warned = true })
      else (ok tt, record b { buffer = b.buffer ++ t ∷ [] })

  unfoldable pub store : StoredTelegram → Action (Buffered S) Unit
  unfolding store_sync wrap_store_errors
  store t b = let (r, b') = store_sync t b in (wrap_store_errors r, b')

  unfoldable pub requeue : List StoredTelegram → Buffered S → Buffered S
  requeue telegrams b =
      let joined = telegrams ++ b.buffer in
      if ltb b.max_buffer_size (length joined)
      then record b { buffer = from_end b.max_buffer_size joined; buffer_full_warned = true }
      else record b { buffer = joined }

-- What other tasks do while a call waits for the backing store.
pub data Arrival : Type 0 where
  stored : StoredTelegram → Arrival
  close_called : Arrival

module _ {S : Type 0} where
  -- An exception of `store_sync` goes to its own caller.
  unfoldable pub arrive : Buffered S → Arrival → Buffered S
  unfolding store_sync
  arrive b (stored t) = (store_sync t b).1
  arrive b close_called = record b { closing = true }

  unfoldable pub arrive_all : Buffered S → List Arrival → Buffered S
  unfolding arrive
  arrive_all b [] = b
  arrive_all b (a ∷ rest) = arrive_all (arrive b a) rest
