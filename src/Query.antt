-- ===== src/Query.antt =====
-- src/knx_telegram_store/query.py: the query and its result.
pub mod Matching
use knx_telegram_store.Prelude.{ℕ, Bool, String, List, Option, none, some, true, []}
use knx_telegram_store.Prelude.Int.{ℤ, pos}
use knx_telegram_store.Model.{TimeBound, aware, naive, StoredTelegram}

pub record TelegramQuery : Type 0 where
  pub sources : List String
  pub destinations : List String
  pub telegram_types : List String
  pub directions : List String
  pub dpt_mains : List ℕ
  pub dpts : List (ℕ × Option ℕ)
  pub start_time : Option TimeBound
  pub end_time : Option TimeBound
  pub delta_before_ms : ℤ
  pub delta_after_ms : ℤ
  pub limit : ℤ
  pub offset : ℤ
  pub order_descending : Bool

-- The bounds of the query's time range are aware, where it has any.
abbrev pub AwareBound : Option TimeBound → Type 0
AwareBound none = Unit
AwareBound (some (aware t)) = Unit
AwareBound (some (naive t)) = ⊥

abbrev pub IsAware : TelegramQuery → Type 0
IsAware q = AwareBound q.start_time × AwareBound q.end_time

-- `TelegramQuery()`, the defaults.
abbrev pub default_query : TelegramQuery
default_query = record {
  sources = [];
  destinations = [];
  telegram_types = [];
  directions = [];
  dpt_mains = [];
  dpts = [];
  start_time = none;
  end_time = none;
  delta_before_ms = pos 0;
  delta_after_ms = pos 0;
  limit = pos 25000;
  offset = pos 0;
  order_descending = true;
}

pub record TelegramQueryResult : Type 0 where
  pub telegrams : List StoredTelegram
  pub total_count : ℕ
  pub limit_reached : Bool
