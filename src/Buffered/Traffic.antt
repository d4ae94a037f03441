-- ===== src/Buffered/Traffic.antt =====
-- Every public method of `_BufferMixin` as one call, and the state that it leaves.
use knx_telegram_store.Prelude.{Bool, List, [], ◌∷◌, Option, none, some}
use knx_telegram_store.Exceptions.{Result}
use knx_telegram_store.Model.{Time, StoredTelegram}
use knx_telegram_store.Query.{TelegramQuery}
use knx_telegram_store.Buffered.Backend.{Backend, Buffered}
use knx_telegram_store.Buffered.Buffer.{Arrival, store, store_sync}
use knx_telegram_store.Buffered.Calls

pub data Call : Type 0 where
  store_call : StoredTelegram → Call
  store_sync_call : StoredTelegram → Call
  start_call : Call
  initialize_call : List Arrival → Call
  store_many_call : List StoredTelegram → List Arrival → Call
  flush_call : List (List Arrival) → Call
  flush_tick_call : List (List Arrival) → Call
  query_call : TelegramQuery → Bool → List (List Arrival) → Call
  get_last_unique_call : List (List Arrival) → Call
  get_stats_call : List (List Arrival) → Call
  optimize_call : List (List Arrival) → List Arrival → Call
  begin_backup_call : List (List Arrival) → List Arrival → Call
  end_backup_call : List Arrival → Call
  close_call : List Arrival → List (List Arrival) → List Arrival → Call
  evict_older_than_call : Bool → Time → Bool → List Arrival → Call
  evict_expired_call : Time → Bool → List Arrival → Call
  clear_call : List Arrival → Call

-- A call that still waits has changed nothing.
abbrev pub settle : {S A : Type 0} → S → Option (Result A × S) → S
settle s none = s
settle s (some (r, s')) = s'

module _ (bk : Backend) where
  open bk use {State}

  unfoldable pub perform : Buffered State → Call → Buffered State
  unfolding store Calls.start Calls.initialize Calls.store_many Calls.flush Calls.flush_tick
      Calls.query Calls.get_last_unique_telegrams Calls.get_stats Calls.optimize Calls.begin_backup
      Calls.end_backup Calls.close Calls.evict_older_than Calls.evict_expired Calls.clear
  perform b (store_call t) = (store t b).1
  perform b (store_sync_call t) = (store_sync t b).1
  perform b start_call = Calls.start b
  perform b (initialize_call w) = (Calls.initialize bk w b).1
  perform b (store_many_call ts w) = settle b (Calls.store_many bk ts w b)
  perform b (flush_call a) = (Calls.flush bk a b).1
  perform b (flush_tick_call a) = Calls.flush_tick bk a b
  perform b (query_call q f a) = (Calls.query bk q f a b).1
  perform b (get_last_unique_call a) = (Calls.get_last_unique_telegrams bk a b).1
  perform b (get_stats_call a) = (Calls.get_stats bk a b).1
  perform b (optimize_call a w) = settle b (Calls.optimize bk a w b)
  perform b (begin_backup_call a w) = (Calls.begin_backup bk a w b).1
  perform b (end_backup_call w) = (Calls.end_backup bk w b).1
  perform b (close_call e a w) = (Calls.close bk e a w b).1
  perform b (evict_older_than_call c t d w) = settle b (Calls.evict_older_than bk c t d w b)
  perform b (evict_expired_call t d w) = settle b (Calls.evict_expired bk t d w b)
  perform b (clear_call w) = settle b (Calls.clear bk w b)

  unfoldable pub perform_all : Buffered State → List Call → Buffered State
  unfolding perform
  perform_all b [] = b
  perform_all b (c ∷ cs) = perform_all (perform b c) cs
