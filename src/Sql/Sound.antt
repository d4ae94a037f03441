-- ===== src/Sql/Sound.antt =====
-- When the tables of a SQL store stand for telegrams: rows against the telegrams that they encode.
use knx_telegram_store.Prelude.{
  ℕ, String, List, [], ◌∷◌, Option, none, some, ◌≡◌, refl, ap, sym, inl, inr, arith, In, Bool-cases,
  ◌∙◌, ◌==◌, nat_eq, string_eq, ◌&&◌,
}
use text.Mathlib.TextEquality.{eq_iff}
use knx_telegram_store.Prelude.Reorder.{Pairwise}
use knx_telegram_store.Prelude.Newest.{IsSummary}
use knx_telegram_store.Exceptions.{ok}
use knx_telegram_store.Model.{Payload, binary, array, list_payload, StoredTelegram}
use knx_telegram_store.Lookup.Pairs.{Pair, Ids, find_id}
use knx_telegram_store.Lookup.{LookupTable}
use knx_telegram_store.Lookup.Inserted.{Agrees, IsKeyed}
use knx_telegram_store.Lookup.Resolved.{Entries, find-In}
use knx_telegram_store.Sql.{Row, SqlStore}
use knx_telegram_store.Sql.Encode.{
  value_of, name_of, or_empty, decode, id_of, encode, pairs_of, to_json, from_json,
}

abbrev NameEncodes : Ids → String → String → Option ℕ → Type 0
NameEncodes rows category name none = name ≡ ""
NameEncodes rows category name (some i) = find_id (category, name) rows ≡ some i

-- What a database gives back for a payload: a list for a tuple, and else the payload itself.
abbrev pub payload_read : Option Payload → Option Payload
payload_read none = none
payload_read (some (binary n)) = some (binary n)
payload_read (some (array ns)) = some (list_payload ns)
payload_read (some (list_payload ns)) = some (list_payload ns)

-- What a database gives back for a telegram: all of it but a tuple, which is now a list.
abbrev pub as_read : StoredTelegram → StoredTelegram
as_read t = record t { payload = payload_read t.payload }

from_json-to_json : (o : Option Payload) → from_json (to_json o) ≡ payload_read o
from_json-to_json none = refl
from_json-to_json (some (binary n)) = refl
from_json-to_json (some (array ns)) = refl
from_json-to_json (some (list_payload ns)) = refl

-- The row `r` stands for the telegram `t`, with the ids of the string_lookup rows `rows`.
pub record Encodes (rows : Ids) (t : StoredTelegram) (r : Row) : Type 0 where
  pub timestamp : t.timestamp ≡ r.timestamp
  pub source : find_id ("source", t.source) rows ≡ some r.source_id
  pub destination : find_id ("destination", t.destination) rows ≡ some r.destination_id
  pub telegramtype : find_id ("telegramtype", t.telegramtype) rows ≡ some r.telegramtype_id
  pub direction : find_id ("direction", t.direction) rows ≡ some r.direction_id
  pub source_name : NameEncodes rows "source_name" t.source_name r.source_name_id
  pub destination_name :
      NameEncodes rows "destination_name" t.destination_name r.destination_name_id
  pub payload : to_json t.payload ≡ r.payload
  pub dpt_main : t.dpt_main ≡ r.dpt_main
  pub dpt_sub : t.dpt_sub ≡ r.dpt_sub
  pub value : t.value ≡ r.value
  pub value_numeric : t.value_numeric ≡ r.value_numeric
  pub raw_data : t.raw_data ≡ r.raw_data
  pub data_secure : t.data_secure ≡ r.data_secure

NameEncodes-Agrees :
    (rows more : Ids) (c n : String) (o : Option ℕ)
    → Agrees rows more
    → NameEncodes rows c n o
    → NameEncodes more c n o
NameEncodes-Agrees rows more c n none a h = h
NameEncodes-Agrees rows more c n (some i) a h = a (c, n) i h

-- More rows in string_lookup change nothing.
pub Encodes-Agrees :
    (rows more : Ids) (t : StoredTelegram) (r : Row)
    → Agrees rows more
    → Encodes rows t r
    → Encodes more t r
Encodes-Agrees rows more t r a h = record {
  timestamp = h.timestamp;
  source = a _ _ h.source;
  destination = a _ _ h.destination;
  telegramtype = a _ _ h.telegramtype;
  direction = a _ _ h.direction;
  source_name = NameEncodes-Agrees rows more _ _ r.source_name_id a h.source_name;
  destination_name = NameEncodes-Agrees rows more _ _ r.destination_name_id a h.destination_name;
  payload = h.payload;
  dpt_main = h.dpt_main;
  dpt_sub = h.dpt_sub;
  value = h.value;
  value_numeric = h.value_numeric;
  raw_data = h.raw_data;
  data_secure = h.data_secure;
}

pub Pairwise-Agrees :
    (rows more : Ids) (ts : List StoredTelegram) (rs : List Row)
    → Agrees rows more
    → Pairwise (Encodes rows) ts rs
    → Pairwise (Encodes more) ts rs
Pairwise-Agrees rows more [] [] a h = tt
Pairwise-Agrees rows more (t ∷ ts) (r ∷ rs) a h =
    (Encodes-Agrees rows more t r a h.0, Pairwise-Agrees rows more ts rs a h.1)
Pairwise-Agrees rows more [] (r ∷ rs) a h = absurd h
Pairwise-Agrees rows more (t ∷ ts) [] a h = absurd h

-- The first row of the id and the category, when all such rows have one value.
value_of_unique :
    (c v : String) (i : ℕ) (rows : Ids)
    → In ((c, v), i) rows
    → ((w : String) → In ((c, w), i) rows → w ≡ v)
    → value_of c i rows ≡ some v
unfolding value_of
value_of_unique c v i [] m only = absurd m
value_of_unique c v i (((d, w), j) ∷ rows) m only = elim (Bool-cases (j == i && d == c)) [
  | inl s ↦
      let e : j ≡ i = ground (arith, eq_iff d c) in
      let f : d ≡ c = ground (arith, eq_iff d c) in rw s (ap some (only w (inl cc)))
  | inr o ↦ rw o (elim m [
    | inl same ↦
        let e : j ≡ i = ap (λ (x : Pair × ℕ). x.1) same in
        let f : d ≡ c = ap (λ (x : Pair × ℕ). x.0.0) same in absurd (ground (arith, eq_iff d c))
    | inr later ↦ value_of_unique c v i rows later (λ u k. only u (inr k))
  ])
]

module _ (t : LookupTable) (keyed : IsKeyed t) where
  value_of-find_id :
      (c v : String) (i : ℕ) → find_id (c, v) t.rows ≡ some i → value_of c i t.rows ≡ some v
  value_of-find_id c v i h =
      value_of_unique c v i t.rows (find-In (c, v) i t.rows h) (λ w m.
        ap (λ (p : Pair). p.1) (keyed.one_pair (c, w) (c, v) i (keyed.one_row (c, w) i m) h))

  name_of-NameEncodes :
      (c n : String) (o : Option ℕ) → NameEncodes t.rows c n o → or_empty (name_of c o t.rows) ≡ n
  unfolding value_of
  name_of-NameEncodes c n none h = sym h
  name_of-NameEncodes c n (some i) h = ap or_empty (value_of-find_id c n i h)

  -- The row of a telegram is read back as the telegram, with a list for a tuple.
  pub decode-Encodes :
      (u : StoredTelegram) (r : Row) → Encodes t.rows u r → decode t.rows r ≡ some (as_read u)
  unfolding decode
  decode-Encodes u r h =
      let payload = ap from_json (sym h.payload) ∙ from_json-to_json u.payload in
      let source_name =
        name_of-NameEncodes "source_name" u.source_name r.source_name_id h.source_name in
      let destination_name =
        name_of-NameEncodes "destination_name" u.destination_name r.destination_name_id
          h.destination_name in
      rw
        (
          value_of-find_id "source" u.source r.source_id h.source,
          value_of-find_id "destination" u.destination r.destination_id h.destination,
          value_of-find_id "telegramtype" u.telegramtype r.telegramtype_id h.telegramtype,
          value_of-find_id "direction" u.direction r.direction_id h.direction,
        )
        (λ i. some (record {
          timestamp = sym h.timestamp i;
          source = u.source;
          destination = u.destination;
          telegramtype = u.telegramtype;
          direction = u.direction;
          payload = payload i;
          dpt_main = sym h.dpt_main i;
          dpt_sub = sym h.dpt_sub i;
          value = sym h.value i;
          value_numeric = sym h.value_numeric i;
          raw_data = sym h.raw_data i;
          data_secure = sym h.data_secure i;
          source_name = source_name i;
          destination_name = destination_name i;
        }))

-- Every pair of a telegram has an id in `ids`, which is its row's.
abbrev pub Resolvable : Ids → Ids → Pair → Type 0
Resolvable ids rows p = (i : ℕ) × (find_id p ids ≡ some i) × (find_id p rows ≡ some i)

-- A telegram whose pairs are resolved is encoded, and its row stands for it.
pub encode-Encodes :
    (ids rows : Ids) (t : StoredTelegram)
    → ((p : Pair) → In p (pairs_of t) → Resolvable ids rows p)
    → (r : Row) × (encode ids t ≡ ok r) × Encodes rows t r
unfolding encode id_of
encode-Encodes ids rows t known =
    let (a, a1, a2) = known ("source", t.source) (inl refl) in
    let (b, b1, b2) = known ("destination", t.destination) (inr (inl refl)) in
    let (c, c1, c2) = known ("telegramtype", t.telegramtype) (inr (inr (inl refl))) in
    let (d, d1, d2) = known ("direction", t.direction) (inr (inr (inr (inl refl)))) in
    let (e, e1, e2) = known ("source_name", t.source_name) (inr (inr (inr (inr (inl refl))))) in
    let (f, f1, f2) =
      known ("destination_name", t.destination_name) (inr (inr (inr (inr (inr (inl refl)))))) in
    let row : Row = record {
      timestamp = t.timestamp;
      source_id = a;
      destination_id = b;
      telegramtype_id = c;
      direction_id = d;
      source_name_id = some e;
      destination_name_id = some f;
      payload = to_json t.payload;
      dpt_main = t.dpt_main;
      dpt_sub = t.dpt_sub;
      value = t.value;
      value_numeric = t.value_numeric;
      raw_data = t.raw_data;
      data_secure = t.data_secure;
    } in
    (
      row,
      rw (a1, b1, c1, d1, e1, f1) refl,
      record {
        timestamp = refl;
        source = a2;
        destination = b2;
        telegramtype = c2;
        direction = d2;
        source_name = e2;
        destination_name = f2;
        payload = refl;
        dpt_main = refl;
        dpt_sub = refl;
        value = refl;
        value_numeric = refl;
        raw_data = refl;
        data_secure = refl;
      },
    )

-- A store whose tables stand for the telegrams `ts`, after a log of telegrams since it was cleared:
-- the summaries are those of the log, which eviction does not shorten.
pub record IsSound (s : SqlStore) (ts log : List StoredTelegram) : Type 0 where
  pub keyed : IsKeyed s.database.string_lookup
  pub cached : Entries s.lookup_cache.cache s.database.string_lookup.rows
  pub telegrams : Pairwise (Encodes s.database.string_lookup.rows) ts s.database.telegrams
  pub summary : List StoredTelegram
  pub summaries :
      Pairwise (Encodes s.database.string_lookup.rows) summary s.database.last_ga_telegrams
  pub is_summary :
      IsSummary
        (λ (t : StoredTelegram). t.destination)
        (λ (t : StoredTelegram). t.timestamp)
        log
        summary
