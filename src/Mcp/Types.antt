-- ===== src/Mcp/Types.antt =====
-- src/knx_telegram_store/mcp/types.py: what the tools take and return.
use knx_telegram_store.Prelude.{ℕ, Bool, String, List, [], Option, none, true}
use knx_telegram_store.Prelude.Int.{ℤ, pos}
use knx_telegram_store.Model.{Value, Float}

pub record QueryTelegramsInput : Type 0 where
  pub start_time : Option String
  pub end_time : Option String
  pub sources : List String
  pub destinations : List String
  pub telegram_types : List String
  pub directions : List String
  pub dpt_mains : List ℕ
  pub dpts : List String
  pub delta_before_ms : ℤ
  pub delta_after_ms : ℤ
  pub limit : ℤ
  pub offset : ℤ
  pub order_descending : Bool

-- `QueryTelegramsInput()`
abbrev pub default_input : QueryTelegramsInput
default_input = record {
  start_time = none;
  end_time = none;
  sources = [];
  destinations = [];
  telegram_types = [];
  directions = [];
  dpt_mains = [];
  dpts = [];
  delta_before_ms = pos 0;
  delta_after_ms = pos 0;
  limit = pos 100;
  offset = pos 0;
  order_descending = true;
}

pub record LastValuesInput : Type 0 where
  pub destinations : List String

-- `dpt` is a text by its code points.
pub record TelegramSummary : Type 0 where
  pub timestamp : String
  pub source : String
  pub destination : String
  pub telegramtype : String
  pub direction : String
  pub dpt : Option (List ℕ)
  pub value : Value
  pub value_numeric : Option Float
  pub raw_data : Option String
  pub source_name : String
  pub destination_name : String

pub record QueryTelegramsResult : Type 0 where
  pub telegrams : List TelegramSummary
  pub total_count : ℕ
  pub offset : ℤ
  pub next_offset : Option ℤ
  pub limit_reached : Bool

pub record StoreStatsResult : Type 0 where
  pub telegram_count : ℕ
  pub oldest_timestamp : Option String
  pub newest_timestamp : Option String
  pub size_bytes : Option ℕ
  pub backend : String
  pub retention_days : Option ℕ

pub record StoreCapabilitiesResult : Type 0 where
  pub supports_time_range : Bool
  pub supports_time_delta : Bool
  pub supports_pagination : Bool
  pub supports_count : Bool
  pub supports_size_stats : Bool
  pub supports_optimize : Bool
  pub read_only : Bool
  pub max_storage : Option ℕ

pub record CountResult : Type 0 where
  pub count : ℕ
