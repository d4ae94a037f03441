-- ===== src/Sql/Encode.antt =====
-- From a telegram to its row and back: the ids of its texts in the string_lookup table.
use knx_telegram_store.Prelude.{
  ℕ, String, List, [], ◌∷◌, ◌++◌, Option, none, some, ◌&&◌, ◌==◌, nat_eq, string_eq, if◌then◌else◌,
}
use knx_telegram_store.Exceptions.{Result, ok, raise_new, key_error, ◌>>=◌}
use knx_telegram_store.Model.{Payload, binary, array, list_payload, StoredTelegram}
use knx_telegram_store.Lookup.Pairs.{Pair, Ids, find_id}
use knx_telegram_store.Sql.{Row, JsonPayload, json_int, json_array}

-- The six `pairs.add` for one telegram.
abbrev pub pairs_of : StoredTelegram → List Pair
pairs_of t =
    ("source", t.source)
    ∷ ("destination", t.destination)
    ∷ ("telegramtype", t.telegramtype)
    ∷ ("direction", t.direction)
    ∷ ("source_name", t.source_name)
    ∷ ("destination_name", t.destination_name)
    ∷ []

abbrev pub all_pairs : List StoredTelegram → List Pair
all_pairs [] = []
all_pairs (t ∷ ts) = pairs_of t ++ all_pairs ts

-- `lookup_ids[pair]`
abbrev pub found_or_key_error : Option ℕ → Result ℕ
found_or_key_error none = raise_new key_error
found_or_key_error (some i) = ok i

unfoldable pub id_of : Ids → Pair → Result ℕ
unfolding find_id
id_of ids p = found_or_key_error (find_id p ids)

-- What the `JSON` column type writes and reads: a tuple is written as an array, and an array is read as
-- a list.
abbrev pub to_json : Option Payload → Option JsonPayload
to_json none = none
to_json (some (binary n)) = some (json_int n)
to_json (some (array ns)) = some (json_array ns)
to_json (some (list_payload ns)) = some (json_array ns)

abbrev pub from_json : Option JsonPayload → Option Payload
from_json none = none
from_json (some (json_int n)) = some (binary n)
from_json (some (json_array ns)) = some (list_payload ns)

-- One element of `values`.
unfoldable pub encode : Ids → StoredTelegram → Result Row
unfolding id_of
encode ids t = do
  source ← id_of ids ("source", t.source)
  destination ← id_of ids ("destination", t.destination)
  telegramtype ← id_of ids ("telegramtype", t.telegramtype)
  direction ← id_of ids ("direction", t.direction)
  source_name ← id_of ids ("source_name", t.source_name)
  destination_name ← id_of ids ("destination_name", t.destination_name)
  ok (record {
    timestamp = t.timestamp;
    source_id = source;
    destination_id = destination;
    telegramtype_id = telegramtype;
    direction_id = direction;
    source_name_id = some source_name;
    destination_name_id = some destination_name;
    payload = to_json t.payload;
    dpt_main = t.dpt_main;
    dpt_sub = t.dpt_sub;
    value = t.value;
    value_numeric = t.value_numeric;
    raw_data = t.raw_data;
    data_secure = t.data_secure;
  })

-- The join of a row with the alias of string_lookup for one category; an id has one row.
unfoldable pub value_of : String → ℕ → Ids → Option String
value_of category i [] = none
value_of category i (((c, v), j) ∷ rest) =
    let below = value_of category i rest in if j == i && c == category then some v else below

abbrev pub name_of : String → Option ℕ → Ids → Option String
name_of category none rows = none
name_of category (some i) rows = value_of category i rows

-- `row.source_name or ""`
abbrev pub or_empty : Option String → String
or_empty none = ""
or_empty (some s) = s

abbrev pub if_found : {A B : Type 0} → Option A → (A → Option B) → Option B
if_found none f = none
if_found (some a) f = f a

-- The telegram of a row; `none` if one of the four required texts has no row in string_lookup.
unfoldable pub decode : Ids → Row → Option StoredTelegram
unfolding value_of
decode rows r = if_found (value_of "source" r.source_id rows) λ source.
    if_found (value_of "destination" r.destination_id rows) λ destination.
      if_found (value_of "telegramtype" r.telegramtype_id rows) λ telegramtype.
        if_found (value_of "direction" r.direction_id rows) λ direction. some (record {
          timestamp = r.timestamp;
          source = source;
          destination = destination;
          telegramtype = telegramtype;
          direction = direction;
          payload = from_json r.payload;
          dpt_main = r.dpt_main;
          dpt_sub = r.dpt_sub;
          value = r.value;
          value_numeric = r.value_numeric;
          raw_data = r.raw_data;
          data_secure = r.data_secure;
          source_name = or_empty (name_of "source_name" r.source_name_id rows);
          destination_name = or_empty (name_of "destination_name" r.destination_name_id rows);
        })
