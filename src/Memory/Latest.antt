-- ===== src/Memory/Latest.antt =====
-- `get_last_unique_telegrams`: the loop over the deque and its dictionary.
use knx_telegram_store.Prelude.{
  Bool, true, String, List, [], ◌∷◌, map, Option, none, some, ltb, if◌then◌else◌, ◌==◌, string_eq,
}
use knx_telegram_store.Model.{StoredTelegram}

-- A dictionary in insertion order; a new value of an old key stays in its place.
abbrev pub Dict : Type 0
Dict = List (String × StoredTelegram)

unfoldable pub get : String → Dict → Option StoredTelegram
get k [] = none
get k ((j, v) ∷ d) = if j == k then some v else get k d

unfoldable pub put : String → StoredTelegram → Dict → Dict
put k v [] = (k, v) ∷ []
put k v ((j, w) ∷ d) = if j == k then (j, v) ∷ d else (j, w) ∷ put k v d

abbrev pub is_newer : StoredTelegram → Option StoredTelegram → Bool
is_newer t none = true
is_newer t (some current) = ltb current.timestamp t.timestamp

unfoldable pub update_latest : Dict → StoredTelegram → Dict
unfolding get put
update_latest last_ga t =
    if is_newer t (get t.destination last_ga) then put t.destination t last_ga else last_ga

unfoldable pub latest_loop : Dict → List StoredTelegram → Dict
unfolding update_latest
latest_loop last_ga [] = last_ga
latest_loop last_ga (t ∷ ts) = latest_loop (update_latest last_ga t) ts

unfoldable pub latest_of_each : List StoredTelegram → List StoredTelegram
unfolding latest_loop
latest_of_each telegrams = map (λ (e : String × StoredTelegram). e.1) (latest_loop [] telegrams)
