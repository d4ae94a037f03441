-- ===== src/Model.antt =====
-- src/knx_telegram_store/model.py: the stored form of a telegram.
use knx_telegram_store.Prelude.{ℕ, Bool, String, List, Option}
use knx_telegram_store.Prelude.Int.{ℤ}

-- An aware datetime, whatever its offset, is the instant that it denotes: the microseconds since 0001-01-01T00:00:00+00:00, the first that
-- Python's `datetime` can hold.
abbrev pub Time : Type 0
Time = ℕ

-- 9999-12-31T23:59:59.999999+00:00, the last one.
abbrev pub max_time : Time
max_time = 315537897599999999

-- A `datetime` that a caller passes: an aware one is its instant, a naive one its digits, as the
-- microseconds since the year 1.
pub data TimeBound : Type 0 where
  aware : Time → TimeBound
  naive : Time → TimeBound

-- The instant of a bound, of a naive one by UTC.
abbrev pub instant_of : TimeBound → Time
instant_of (aware t) = t
instant_of (naive t) = t

-- A `timedelta`, in microseconds.
abbrev pub Timedelta : Type 0
Timedelta = ℤ

-- A double is its 64 bits: the library stores floats and never computes with them.
abbrev pub Float : Type 0
Float = ℕ

-- What `json` can write: the values of a decoded telegram, dictionaries included.
mutual
  pub data Value : Type 0 where
    none_value : Value
    bool_value : Bool → Value
    str_value : String → Value
    int_value : ℤ → Value
    float_value : Float → Value
    list_value : Values → Value
    dict_value : Entries → Value

  pub data Values : Type 0 where
    no_values : Values
    value_then : Value → Values → Values

  pub data Entries : Type 0 where
    no_entries : Entries
    entry_then : String → Value → Entries → Entries

-- `int | tuple[int, ...]`: DPTBinary or DPTArray. What a store has read from JSON has a list in place
-- of the tuple, which the annotation does not name and which is unequal to the tuple.
pub data Payload : Type 0 where
  binary : ℤ → Payload
  array : List ℤ → Payload
  list_payload : List ℤ → Payload

pub record StoredTelegram : Type 0 where
  pub timestamp : Time
  pub source : String
  pub destination : String
  pub telegramtype : String
  pub direction : String
  pub payload : Option Payload
  pub dpt_main : Option ℕ
  pub dpt_sub : Option ℕ
  pub value : Value
  pub value_numeric : Option Float
  pub raw_data : Option String
  pub data_secure : Option Bool
  pub source_name : String
  pub destination_name : String
