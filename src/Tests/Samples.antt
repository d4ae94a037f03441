-- ===== src/Tests/Samples.antt =====
-- Telegrams, queries and stores that the tests share.
use knx_telegram_store.Prelude.{ℕ, String, List, [], ◌∷◌, none, some}
use knx_telegram_store.Prelude.Int.{pos}
use knx_telegram_store.Model.{StoredTelegram, int_value}
use knx_telegram_store.Query.{TelegramQuery, default_query}
use knx_telegram_store.Memory.{MemoryStore}

abbrev pub telegram : ℕ → String → String → StoredTelegram
telegram at from to = record {
  timestamp = at;
  source = from;
  destination = to;
  telegramtype = "GroupValueWrite";
  direction = "Incoming";
  payload = none;
  dpt_main = some 9;
  dpt_sub = some 1;
  value = int_value (pos 1);
  value_numeric = none;
  raw_data = none;
  data_secure = none;
  source_name = "";
  destination_name = "";
}

abbrev pub early : StoredTelegram
early = telegram 1000000 "1.1.1" "1/1/1"

abbrev pub middle : StoredTelegram
middle = telegram 1500000 "1.1.2" "2/2/2"

abbrev pub late : StoredTelegram
late = telegram 9000000 "1.1.1" "1/1/1"

abbrev pub samples : List StoredTelegram
samples = early ∷ middle ∷ late ∷ []

abbrev pub memory : MemoryStore
memory = record { max_telegrams = 10; telegrams = samples }

-- The telegrams from 1.1.1.
abbrev pub from_first : TelegramQuery
from_first = record default_query { sources = "1.1.1" ∷ [] }

-- The telegrams to 1/1/1 with those up to a second behind each.
abbrev pub with_context : TelegramQuery
with_context = record default_query { destinations = "1/1/1" ∷ []; delta_after_ms = pos 1000 }
