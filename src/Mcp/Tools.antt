-- ===== src/Mcp/Tools.antt =====
-- src/knx_telegram_store/mcp/tools.py: the tools over any store. A store is what its read methods
-- answer at the moment of the call.
use Prim.Native.Char.{code}
use Prim.Native.String
use knx_telegram_store.Prelude.{
  ℕ, not, ◌&&◌, String, List, [], ◌∷◌, map, Option, none, some, ◌==◌, nat_eq, string_eq,
  if◌then◌else◌, is_nonempty, contains,
}
use knx_telegram_store.Prelude.Int.{pos, ltb_ℤ, leb_ℤ, ◌+ℤ◌}
use knx_telegram_store.Prelude.Keep.{keep}
use knx_telegram_store.Exceptions.{Result, ok, raise_new, value_error, ◌>>=◌}
use knx_telegram_store.Model.{Time, TimeBound, StoredTelegram}
use knx_telegram_store.Query.{TelegramQuery, TelegramQueryResult}
use knx_telegram_store.Store.{StoreCapabilities, StoreStats}
use knx_telegram_store.Mcp.Types.{
  QueryTelegramsInput, LastValuesInput, TelegramSummary, QueryTelegramsResult, StoreStatsResult,
  StoreCapabilitiesResult, CountResult,
}
use knx_telegram_store.Mcp.Text.{codes, normalize_type, parse_dpt, format_dpt}

-- What the tools call of a store.
pub record StoreView : Type 0 where
  pub query : TelegramQuery → Result TelegramQueryResult
  pub get_last_unique_telegrams : Result (List StoredTelegram)
  pub get_stats : Result StoreStats
  pub capabilities : StoreCapabilities
  pub count : Result ℕ

-- Python's own conversions: `datetime.fromisoformat`, `none` for its ValueError, `isoformat`, and
-- the decimal digit of a character. A text with an offset is an aware datetime, one without is naive.
pub record Conversions : Type 0 where
  pub fromisoformat : String → Option TimeBound
  pub isoformat : Time → String
  pub digit : ℕ → Option ℕ

abbrev pub max_query_limit : ℕ
max_query_limit = 1000

-- `_validate_pagination`
unfoldable pub validate_pagination : QueryTelegramsInput → Result (Unit {0})
validate_pagination input =
    if not (leb_ℤ (pos 1) input.limit && leb_ℤ input.limit (pos max_query_limit))
    then raise_new value_error
    else if ltb_ℤ input.offset (pos 0)
    then raise_new value_error
    else ok tt

-- `value.replace("Z", "+00:00")`
unfoldable pub replace_z : String → String
replace_z String.[] = ""
replace_z (String.◌∷◌ c s) =
    let rest = replace_z s in
    if code c == b'Z' then String.◌++◌ "+00:00" rest else String.◌∷◌ c rest

-- The first exception of a list comprehension ends it.
unfoldable pub map_result : {A B : Type 0} → (A → Result B) → List A → Result (List B)
map_result f [] = ok []
map_result f (a ∷ rest) = do b ← f a; bs ← map_result f rest; ok (b ∷ bs)

module _ (py : Conversions) where
  -- `_parse_dt`
  unfoldable pub parse_dt : Option String → Result (Option TimeBound)
  unfolding replace_z
  parse_dt none = ok none
  parse_dt (some value) = elim (py.fromisoformat (replace_z value)) [
    | none ↦ raise_new value_error
    | some t ↦ ok (some t)
  ]

  -- `_iso_opt`
  abbrev pub iso_opt : Option Time → Option String
  iso_opt none = none
  iso_opt (some t) = some (py.isoformat t)

  -- `_summarize`
  unfoldable pub summarize : StoredTelegram → TelegramSummary
  unfolding format_dpt
  summarize t = record {
    timestamp = py.isoformat t.timestamp;
    source = t.source;
    destination = t.destination;
    telegramtype = t.telegramtype;
    direction = t.direction;
    dpt = format_dpt t.dpt_main t.dpt_sub;
    value = t.value;
    value_numeric = t.value_numeric;
    raw_data = t.raw_data;
    source_name = t.source_name;
    destination_name = t.destination_name;
  }

  -- The `TelegramQuery(...)` of `query_telegrams`.
  unfoldable pub to_query : QueryTelegramsInput → Result TelegramQuery
  unfolding parse_dt parse_dpt normalize_type map_result
  to_query input = do
    dpts ← map_result (λ d. parse_dpt py.digit (codes d)) input.dpts
    start_time ← parse_dt input.start_time
    end_time ← parse_dt input.end_time
    ok (record {
      sources = input.sources;
      destinations = input.destinations;
      telegram_types = map normalize_type input.telegram_types;
      directions = input.directions;
      dpt_mains = input.dpt_mains;
      dpts = dpts;
      start_time = start_time;
      end_time = end_time;
      delta_before_ms = input.delta_before_ms;
      delta_after_ms = input.delta_after_ms;
      limit = input.limit;
      offset = input.offset;
      order_descending = input.order_descending;
    })

  -- The answer of `query_telegrams`, from that of the store.
  abbrev pub answer : QueryTelegramsInput → TelegramQueryResult → QueryTelegramsResult
  answer input result = record {
    telegrams = map summarize result.telegrams;
    total_count = result.total_count;
    offset = input.offset;
    next_offset = if result.limit_reached then some (input.offset +ℤ input.limit) else none;
    limit_reached = result.limit_reached;
  }

  unfoldable pub query_telegrams : StoreView → QueryTelegramsInput → Result QueryTelegramsResult
  unfolding validate_pagination to_query summarize
  query_telegrams store input = do
    checked ← validate_pagination input
    query ← to_query input
    result ← store.query query
    ok (answer input result)

  -- `[t for t in telegrams if t.destination in wanted]`, if any destinations are given.
  abbrev pub of_destinations : LastValuesInput → List StoredTelegram → List StoredTelegram
  of_destinations input telegrams =
      if is_nonempty input.destinations
      then keep (λ t. contains input.destinations t.destination) telegrams
      else telegrams

  unfoldable pub get_last_values : StoreView → LastValuesInput → Result (List TelegramSummary)
  unfolding summarize
  get_last_values store input = do
    telegrams ← store.get_last_unique_telegrams
    ok (map summarize (of_destinations input telegrams))

  unfoldable pub get_store_stats : StoreView → Result StoreStatsResult
  get_store_stats store = do
    stats ← store.get_stats
    ok (record {
      telegram_count = stats.telegram_count;
      oldest_timestamp = iso_opt stats.oldest_timestamp;
      newest_timestamp = iso_opt stats.newest_timestamp;
      size_bytes = stats.size_bytes;
      backend = stats.backend;
      retention_days = stats.retention_days;
    })

unfoldable pub get_store_capabilities : StoreView → StoreCapabilitiesResult
get_store_capabilities store =
    let caps = store.capabilities in
    record {
      supports_time_range = caps.supports_time_range;
      supports_time_delta = caps.supports_time_delta;
      supports_pagination = caps.supports_pagination;
      supports_count = caps.supports_count;
      supports_size_stats = caps.supports_size_stats;
      supports_optimize = caps.supports_optimize;
      read_only = caps.read_only;
      max_storage = caps.max_storage;
    }

unfoldable pub count_telegrams : StoreView → Result CountResult
count_telegrams store = do n ← store.count; ok (record { count = n })
