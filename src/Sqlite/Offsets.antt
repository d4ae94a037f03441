-- ===== src/Sqlite/Offsets.antt =====
-- `_offset_at`, `_transition_between`, `_offset_intervals`, and the `CASE` of
-- `_convert_table_to_utc`.
-- Times are naive datetimes in microseconds, so far from the year 9999 that no sum overflows.
use knx_telegram_store.Prelude.{
  ℕ, zero, suc, ◌+◌, ◌-◌, ◌*◌, ◌/◌, ◌%◌, Bool, false, not, ◌||◌, List, [], ◌∷◌, leb, ltb,
  if◌then◌else◌, is_nonempty, nat_eq, ◌==◌,
}
use knx_telegram_store.Prelude.Int.{ℤ, pos, negsuc, neg_ℤ}
use knx_telegram_store.Model.{Time, Timedelta}

abbrev pub second : ℕ
second = 1000000

abbrev pub hour : ℕ
hour = 3600000000

-- `int(delta.total_seconds())`, which drops the fraction of a second.
abbrev pub whole_seconds : Timedelta → ℤ
whole_seconds (pos n) = pos (n / second)
whole_seconds (negsuc n) = neg_ℤ (pos (suc n / second))

abbrev pub same_offset : ℤ → ℤ → Bool
same_offset (pos a) (pos b) = a == b
same_offset (negsuc a) (negsuc b) = a == b
same_offset (pos a) (negsuc b) = false
same_offset (negsuc a) (pos b) = false

-- `timedelta / 2`, which rounds half a microsecond to the even one.
abbrev pub half : ℕ → ℕ
half n = let low = n / 2 in if n % 2 == 0 then low else if low % 2 == 0 then low else suc low

-- `replace(microsecond=0)`
abbrev pub floor_second : Time → Time
floor_second t = t / second * second

abbrev pub floor_hour : Time → Time
floor_hour t = t / hour * hour

pub record Interval : Type 0 where
  pub start : Time
  pub end_exclusive : Time
  pub offset : ℤ

-- `utcoffset` is the zone's, at a naive time and with fold=0.
module _ (utcoffset : Time → Timedelta) where
  unfoldable pub offset_at : Time → ℤ
  offset_at moment = whole_seconds (utcoffset moment)

  -- The loop of `_transition_between`, on fuel.
  unfoldable pub bisect : ℕ → Time → Time → ℤ → Time
  unfolding offset_at
  bisect zero before after offset = floor_second after
  bisect (suc n) before after offset =
      let middle = before + half (after - before) in
      let same = same_offset (offset_at middle) offset in
      let rest =
        bisect n (if same then middle else before) (if same then after else middle) offset in
      if ltb second (after - before) then rest else floor_second after

  -- 64 halvings bring any range of datetimes below a second.
  unfoldable pub transition_between : Time → Time → ℤ → Time
  unfolding bisect
  transition_between before after offset = bisect 64 before after offset

  -- The rounds of the walk behind the first one, and the open-ended tail.
  unfoldable pub walk : ℕ → Time → Time → Time → ℤ → Time → List Interval
  unfolding transition_between
  walk zero end cursor previous current start =
      record { start = start; end_exclusive = end + hour; offset = current } ∷ []
  walk (suc n) end cursor previous current start =
      let offset = offset_at cursor in
      let same = same_offset offset current in
      let boundary = transition_between previous cursor current in
      let rest =
        walk n end (cursor + hour) cursor (if same then current else offset)
          (if same then start else boundary) in
      if leb cursor end
      then (if same
          then rest
          else record { start = start; end_exclusive = boundary; offset = current } ∷ rest)
      else record { start = start; end_exclusive = end + hour; offset = current } ∷ []

  -- The step is an hour; the walk has a round for each of its cursors.
  unfoldable pub offset_intervals : Time → Time → List Interval
  unfolding walk
  offset_intervals oldest newest =
      let cursor = floor_hour oldest in
      let end = newest + hour in
      if leb cursor end
      then walk (suc ((end - cursor) / hour)) end (cursor + hour) cursor (offset_at cursor) cursor
      else []

abbrev pub any_offset : List Interval → Bool
any_offset [] = false
any_offset (i ∷ is) = not (same_offset i.offset (pos 0)) || any_offset is

-- The offset that the `CASE` takes for a timestamp: of the first interval that ends behind it, and of
-- the last one for the rest.
unfoldable pub case_offset : List Interval → Time → ℤ
case_offset [] t = pos 0
case_offset (i ∷ is) t =
    let below = case_offset is t in
    if is_nonempty is then (if ltb t i.end_exclusive then i.offset else below) else i.offset
