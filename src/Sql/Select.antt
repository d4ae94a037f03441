-- ===== src/Sql/Select.antt =====
-- The row queries of `BaseSQLStore.query`: the filters on `telegrams`, the context window, the count
-- and the page.
use knx_telegram_store.Prelude.{
  ℕ, Bool, true, false, ◌&&◌, ◌||◌, String, List, [], ◌∷◌, ◌++◌, map, Option, none, some, leb,
  length, take, drop, if◌then◌else◌, is_nonempty, contains, string_eq, nat_eq, option_eq, ◌==◌,
}
use knx_telegram_store.Prelude.Int.{ℤ, pos, negsuc, ltb_ℤ, leb_ℤ, neg_ℤ, ◌+ℤ◌, ◌*ℤ◌}
use knx_telegram_store.Prelude.Keep.{keep}
use knx_telegram_store.Exceptions.{PyException, Result, ok, raise, ◌>>=◌}
use knx_telegram_store.Model.{TimeBound, instant_of, Timedelta, StoredTelegram}
use knx_telegram_store.Query.{TelegramQuery}
use knx_telegram_store.Store.{wrap_store_errors}
use knx_telegram_store.Memory.Times.{milliseconds}
use knx_telegram_store.Lookup.{Dialect, sqlite}
use knx_telegram_store.Lookup.Pairs.{Ids}
use knx_telegram_store.Sql.{Row, SqlStore, Platform}
use knx_telegram_store.Sql.Encode.{decode}

abbrev pub Condition : Type 0
Condition = Row → Bool

-- `SELECT id FROM string_lookup WHERE category = ... AND value IN (...)`
unfoldable pub ids_in : String → List String → Ids → List ℕ
ids_in category wanted [] = []
ids_in category wanted (((c, v), i) ∷ rest) =
    let below = ids_in category wanted rest in
    if c == category && contains wanted v then i ∷ below else below

-- `if wanted: filters.append(column.in_(ids))`
abbrev pub id_filter : String → List String → (Row → ℕ) → Ids → List Condition
id_filter category wanted column rows =
    if is_nonempty wanted then (λ r. contains (ids_in category wanted rows) (column r)) ∷ [] else []

-- `dpt_main IN (...)`, which `NULL` is not.
abbrev pub is_among : List ℕ → Option ℕ → Bool
is_among mains none = false
is_among mains (some main) = contains mains main

abbrev pub main_condition : List ℕ → Condition
main_condition mains r = is_among mains r.dpt_main

abbrev pub pair_condition : ℕ × Option ℕ → Condition
pair_condition (main, none) r = r.dpt_main == some main
pair_condition (main, some sub) r = r.dpt_main == some main && r.dpt_sub == some sub

abbrev pub dpt_conditions : TelegramQuery → List Condition
dpt_conditions q =
    (if is_nonempty q.dpt_mains then main_condition q.dpt_mains ∷ [] else [])
    ++ map pair_condition q.dpts

-- `or_(*conditions)` and `and_(*conditions)`
abbrev pub any_of : List Condition → Condition
any_of [] r = false
any_of (c ∷ cs) r = c r || any_of cs r

abbrev pub all_of : List Condition → Condition
all_of [] r = true
all_of (c ∷ cs) r = c r && all_of cs r

abbrev pub dpt_filter : List Condition → List Condition
dpt_filter conditions = if is_nonempty conditions then any_of conditions ∷ [] else []

-- `UtcDateTime` binds a naive bound as UTC.
abbrev pub start_filter : Option TimeBound → List Condition
start_filter none = []
start_filter (some start) = (λ r. leb (instant_of start) r.timestamp) ∷ []

abbrev pub end_filter : Option TimeBound → List Condition
end_filter none = []
end_filter (some end) = (λ r. leb r.timestamp (instant_of end)) ∷ []

-- Step 1, on integer timestamps: `_text_timestamps` of the base class is false.
unfoldable pub filters : Ids → TelegramQuery → List Condition
unfolding ids_in
filters rows q =
    id_filter "source" q.sources (λ r. r.source_id) rows
    ++ id_filter "destination" q.destinations (λ r. r.destination_id) rows
    ++ id_filter "telegramtype" q.telegram_types (λ r. r.telegramtype_id) rows
    ++ id_filter "direction" q.directions (λ r. r.direction_id) rows
    ++ dpt_filter (dpt_conditions q)
    ++ start_filter q.start_time
    ++ end_filter q.end_time

abbrev pub delta_active : TelegramQuery → Bool
delta_active q = ltb_ℤ (pos 0) q.delta_before_ms || ltb_ℤ (pos 0) q.delta_after_ms

-- The bound value of a delta: an integer of microseconds, or a `timedelta`, which may overflow.
abbrev pub delta_of : Dialect → ℤ → Result Timedelta
delta_of dialect ms = elim dialect [ sqlite ↦ ok (ms *ℤ 1000) | _ ↦ milliseconds ms ]

-- The `cond` between a row and a pivot.
abbrev pub in_range : Timedelta → Timedelta → Row → Row → Bool
in_range before after pivot r =
    leb_ℤ (pos pivot.timestamp +ℤ neg_ℤ before) (pos r.timestamp)
    && leb_ℤ (pos r.timestamp) (pos pivot.timestamp +ℤ after)

abbrev pub exists_pivot : Timedelta → Timedelta → List Row → Condition
exists_pivot before after [] r = false
exists_pivot before after (p ∷ pivots) r =
    in_range before after p r || exists_pivot before after pivots r

-- Step 2. A missing clause lets every row pass.
unfoldable pub where_clause : Dialect → List Row → List Condition → TelegramQuery → Result Condition
unfolding milliseconds
where_clause dialect telegrams conditions q =
    if delta_active q && is_nonempty conditions
    then (do
      before ← delta_of dialect q.delta_before_ms
      after ← delta_of dialect q.delta_after_ms
      ok (exists_pivot before after (keep (all_of conditions) telegrams)))
    else ok (all_of conditions)

-- `OFFSET` and `LIMIT`; a negative one restricts nothing in SQLite, and PostgreSQL raises.
abbrev pub offset_by : {A : Type 0} → ℤ → List A → List A
offset_by (pos n) rows = drop n rows
offset_by (negsuc n) rows = rows

abbrev pub limit_to : {A : Type 0} → ℤ → List A → List A
limit_to (pos n) rows = take n rows
limit_to (negsuc n) rows = rows

-- A result; a telegram is `none` if the joins do not find one of its four required texts.
pub record PageResult : Type 0 where
  pub telegrams : List (Option StoredTelegram)
  pub total_count : ℕ
  pub limit_reached : Bool

-- Steps 3 to 5.
unfoldable pub page_of : Platform → SqlStore → TelegramQuery → Condition → PageResult
unfolding decode
page_of platform s q condition =
    let selected = keep condition s.database.telegrams in
    let page =
      limit_to q.limit (offset_by q.offset (platform.order_by q.order_descending selected)) in
    record {
      telegrams =
          map (decode s.database.string_lookup.rows) (platform.order_by q.order_descending page);
      total_count = length selected;
      limit_reached = ltb_ℤ (q.offset +ℤ q.limit) (pos (length selected));
    }

-- What the database answers: `none` if it runs the statements, or what it raises.
abbrev pub answered : {A : Type 0} → Option PyException → A → Result A
answered none a = ok a
answered (some e) a = raise e

unfoldable pub query : Platform → Option PyException → SqlStore → TelegramQuery → Result PageResult
unfolding filters where_clause page_of wrap_store_errors
query platform answer s q = wrap_store_errors (do
  condition ←
      where_clause s.dialect s.database.telegrams (filters s.database.string_lookup.rows q) q
  answered answer (page_of platform s q condition))
