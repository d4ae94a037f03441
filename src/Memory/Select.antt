-- ===== src/Memory/Select.antt =====
-- Steps 1 to 4 of `MemoryStore.query`: the filters, the time range, the context window and the order.
use knx_telegram_store.Prelude.{
  ℕ, suc, Bool, true, false, ◌&&◌, ◌||◌, List, [], ◌∷◌, map, Option, none, some, leb, ltb,
  if◌then◌else◌, is_nonempty, contains, get_elem?, string_eq, nat_eq, option_eq, ◌==◌,
}
use knx_telegram_store.Prelude.Int.{pos, ltb_ℤ}
use knx_telegram_store.Prelude.Keep.{keep}
use knx_telegram_store.Prelude.Sorting.{sort}
use knx_telegram_store.Exceptions.{Result, ok, raise_new, type_error, ◌>>=◌}
use knx_telegram_store.Model.{Time, TimeBound, aware, naive, Timedelta, StoredTelegram}
use knx_telegram_store.Query.{TelegramQuery}
use knx_telegram_store.Memory.Times.{milliseconds, plus, minus}

-- `if active: results = [t for t in results if p(t)]`
abbrev pub filter_if : Bool → (StoredTelegram → Bool) → List StoredTelegram → List StoredTelegram
filter_if active p results = if active then keep p results else results

abbrev pub main_in : Option ℕ → List ℕ → Bool
main_in none mains = false
main_in (some main) mains = contains mains main

-- `sub in (None, t.dpt_sub)`
abbrev pub sub_in : Option ℕ → Option ℕ → Bool
sub_in none t_sub = true
sub_in (some sub) t_sub = t_sub == some sub

abbrev pub any_pair : StoredTelegram → List (ℕ × Option ℕ) → Bool
any_pair t [] = false
any_pair t ((main, sub) ∷ ds) = (t.dpt_main == some main && sub_in sub t.dpt_sub) || any_pair t ds

abbrev pub dpt_match : TelegramQuery → StoredTelegram → Bool
dpt_match q t = if main_in t.dpt_main q.dpt_mains then true else any_pair t q.dpts

-- A naive bound is compared with the aware timestamp of the first telegram, which raises.
abbrev pub compare_naive : List StoredTelegram → Result (List StoredTelegram)
compare_naive [] = ok []
compare_naive (t ∷ ts) = raise_new type_error

abbrev pub from_start : Option TimeBound → List StoredTelegram → Result (List StoredTelegram)
from_start none results = ok results
from_start (some (aware start)) results = ok (keep (λ t. leb start t.timestamp) results)
from_start (some (naive start)) results = compare_naive results

abbrev pub to_end : Option TimeBound → List StoredTelegram → Result (List StoredTelegram)
to_end none results = ok results
to_end (some (aware end)) results = ok (keep (λ t. leb t.timestamp end) results)
to_end (some (naive end)) results = compare_naive results

-- Steps 1 and 2.
unfoldable pub apply_filters : TelegramQuery → List StoredTelegram → Result (List StoredTelegram)
apply_filters q telegrams =
    let r1 = filter_if (is_nonempty q.sources) (λ t. contains q.sources t.source) telegrams in
    let r2 =
      filter_if (is_nonempty q.destinations) (λ t. contains q.destinations t.destination) r1 in
    let r3 =
      filter_if (is_nonempty q.telegram_types) (λ t. contains q.telegram_types t.telegramtype) r2 in
    let r4 = filter_if (is_nonempty q.directions) (λ t. contains q.directions t.direction) r3 in
    let r5 = filter_if (is_nonempty q.dpt_mains || is_nonempty q.dpts) (dpt_match q) r4 in
    do r6 ← from_start q.start_time r5; to_end q.end_time r6

-- `bisect.bisect_left` on an ascending list: how many items stand before the first that is not less.
unfoldable pub bisect_left : List Time → Time → ℕ
bisect_left [] x = 0
bisect_left (y ∷ ys) x = let rest = bisect_left ys x in if ltb y x then suc rest else 0

-- Whether a pivot lies between the bounds.
unfoldable pub has_pivot : List Time → Time → Time → Bool
unfolding bisect_left
has_pivot pivots low high = elim (get_elem? pivots (bisect_left pivots low)) [
  | none ↦ false
  | some p ↦ leb p high
]

-- The loop over all telegrams of the store.
unfoldable pub collect_context :
    List Time → Timedelta → Timedelta → List StoredTelegram → Result (List StoredTelegram)
unfolding minus plus has_pivot
collect_context pivots delta_before delta_after [] = ok []
collect_context pivots delta_before delta_after (t ∷ ts) =
    let rest = collect_context pivots delta_before delta_after ts in
    do
      low_bound ← minus t.timestamp delta_after
      high_bound ← plus t.timestamp delta_before
      context_results ← rest
      ok (if has_pivot pivots low_bound high_bound then t ∷ context_results else context_results)

abbrev pub delta_active : TelegramQuery → Bool
delta_active q = ltb_ℤ (pos 0) q.delta_before_ms || ltb_ℤ (pos 0) q.delta_after_ms

-- Step 3.
unfoldable pub expand_context :
    List StoredTelegram → TelegramQuery → List StoredTelegram → Result (List StoredTelegram)
unfolding collect_context milliseconds sort
expand_context telegrams q results =
    if delta_active q
    then (do
      delta_before ← milliseconds q.delta_before_ms
      delta_after ← milliseconds q.delta_after_ms
      collect_context (sort leb (map (λ (t : StoredTelegram). t.timestamp) results)) delta_before
          delta_after telegrams)
    else ok results

-- The key order of step 4.
abbrev pub in_order : Bool → StoredTelegram → StoredTelegram → Bool
in_order descending a b =
    if descending then leb b.timestamp a.timestamp else leb a.timestamp b.timestamp

-- Steps 1 to 4.
unfoldable pub select : List StoredTelegram → TelegramQuery → Result (List StoredTelegram)
unfolding apply_filters expand_context sort
select telegrams q = do
  filtered ← apply_filters q telegrams
  results ← expand_context telegrams q filtered
  ok (sort (in_order q.order_descending) results)
