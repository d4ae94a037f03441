-- ===== src/Buffered/Dropped.antt =====
-- Which telegrams a flush drops: those that the loop of `_flush` logs as "Dropping telegram", each of
-- them written alone in this flush and refused with a data error.
use knx_telegram_store.Prelude.{not, List, [], ◌∷◌, if◌then◌else◌, is_nonempty}
use knx_telegram_store.Exceptions.{Result, ok, raise}
use knx_telegram_store.Model.{StoredTelegram}
use knx_telegram_store.Buffered.Backend.{Backend, Buffered}
use knx_telegram_store.Buffered.Buffer.{Arrival}
use knx_telegram_store.Buffered.Flush.{write, first_arrivals, later_arrivals, is_hopeless}

-- By the result of the write of `t` alone; `rest` is what the later rounds drop.
abbrev pub dropped_after :
    StoredTelegram → Result (Unit {0}) → List StoredTelegram → List StoredTelegram
dropped_after t (ok _) rest = rest
dropped_after t (raise err) rest = if is_hopeless err then t ∷ rest else []

-- By the result of the write of the batch; `retried` is what the loop drops.
abbrev pub dropped_behind : Result (Unit {0}) → List StoredTelegram → List StoredTelegram
dropped_behind (ok _) retried = []
dropped_behind (raise err) retried = if is_hopeless err then retried else []

module _ (bk : Backend) where
  open bk use {State}

  unfoldable pub dropped_one_by_one :
      List StoredTelegram → List (List Arrival) → Buffered State → List StoredTelegram
  unfolding write
  dropped_one_by_one [] arrivals b = []
  dropped_one_by_one (t ∷ ts) arrivals b =
      let (r, b') = write bk (t ∷ []) (first_arrivals arrivals) b in
      let rest = dropped_one_by_one ts (later_arrivals arrivals) b' in dropped_after t r rest

  unfoldable pub dropped_by_drain : List (List Arrival) → Buffered State → List StoredTelegram
  unfolding write dropped_one_by_one
  dropped_by_drain arrivals b =
      let (r, b') = write bk b.buffer (first_arrivals arrivals) (record b { buffer = [] }) in
      dropped_behind r (dropped_one_by_one b.buffer (later_arrivals arrivals) b')

  -- The telegrams that `flush_locked` drops.
  unfoldable pub dropped : List (List Arrival) → Buffered State → List StoredTelegram
  unfolding dropped_by_drain
  dropped arrivals b =
      if not b.writes_allowed
      then []
      else if not (is_nonempty b.buffer)
      then []
      else dropped_by_drain arrivals b
