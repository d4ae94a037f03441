-- ===== src/Sql/Matching.antt =====
-- The conditions of `BaseSQLStore.query` on a row against the filters on the telegram of the row.
use mathlib.Core.Path.{subst}
use text.Mathlib.TextEquality.{eq_iff}
use knx_telegram_store.Prelude.{
  ℕ, Bool, true, false, not, ◌&&◌, ◌||◌, String, List, [], ◌∷◌, ◌++◌, map, Option, none, some, ◌≡◌,
  refl, ap, sym, ◌∙◌, leb, if◌then◌else◌, is_nonempty, contains, string_eq, nat_eq, option_eq, ◌==◌,
  arith, In, inl, inr, Bool-cases, Bool-same,
}
use knx_telegram_store.Model.{TimeBound, instant_of, StoredTelegram}
use knx_telegram_store.Query.{TelegramQuery}
use knx_telegram_store.Query.Matching.{
  matches, passes, main_listed, any_dpt, names_dpt, not_before, not_after,
}
use knx_telegram_store.Lookup.{LookupTable}
use knx_telegram_store.Lookup.Pairs.{Pair, Ids, find_id}
use knx_telegram_store.Lookup.Inserted.{IsKeyed}
use knx_telegram_store.Lookup.Resolved.{find-In}
use knx_telegram_store.Sql.{Row}
use knx_telegram_store.Sql.Sound.{Encodes}
use knx_telegram_store.Sql.Select.{
  Condition, ids_in, id_filter, main_condition, pair_condition, dpt_conditions, is_among, any_of,
  all_of, dpt_filter, start_filter, end_filter, filters,
}

ids_in_complete :
    (c v : String) (i : ℕ) (wanted : List String) (rows : Ids)
    → contains wanted v ≡ true
    → In ((c, v), i) rows
    → contains (ids_in c wanted rows) i ≡ true
unfolding ids_in
ids_in_complete c v i wanted [] h m = absurd m
ids_in_complete c v i wanted (((d, w), j) ∷ rows) h m = elim m [
  | inl same ↦
      let e : d ≡ c = ap (λ (x : Pair × ℕ). x.0.0) same in
      let f : w ≡ v = ap (λ (x : Pair × ℕ). x.0.1) same in
      let k : j ≡ i = ap (λ (x : Pair × ℕ). x.1) same in
      let test : (d == c) ≡ true = (eq_iff d c).1 e in
      let wanted_too : contains wanted w ≡ true = subst (λ x. contains wanted x ≡ true) (sym f) h in
      rw (test, wanted_too) (ground arith)
  | inr later ↦
      let rest = ids_in_complete c v i wanted rows h later in
      elim (Bool-cases (d == c && contains wanted w)) [
        | inl s ↦ rw s (ground (arith, rest))
        | inr o ↦ rw o rest
      ]
]

ids_in_wanted :
    (c : String) (i : ℕ) (wanted : List String) (rows : Ids)
    → contains (ids_in c wanted rows) i ≡ true
    → (v : String) × (contains wanted v ≡ true) × In ((c, v), i) rows
unfolding ids_in
ids_in_wanted c i wanted [] h = absurd (cc)
ids_in_wanted c i wanted (((d, w), j) ∷ rows) h = elim (Bool-cases (d == c && contains wanted w)) [
  | inl s ↦
      let e : d ≡ c = ground (arith, eq_iff d c) in
      let hit : contains wanted w ≡ true = ground arith in
      elim (Bool-cases (j == i)) [
        | inl same ↦ let k : j ≡ i = ground arith in (w, hit, inl (λ x. ((e x, w), k x)))
        | inr other ↦
            let rest : contains (ids_in c wanted rows) i ≡ true = ground (arith, rw s at h) in
            let (v, a, m) = ids_in_wanted c i wanted rows rest in (v, a, inr m)
      ]
  | inr o ↦ let (v, a, m) = ids_in_wanted c i wanted rows (rw o at h) in (v, a, inr m)
]

all_of-append :
    (cs ds : List Condition) (r : Row) → all_of (cs ++ ds) r ≡ (all_of cs r && all_of ds r)
all_of-append [] ds r = refl
all_of-append (c ∷ cs) ds r = elim (Bool-cases (c r)) [
  | inl e ↦ rw e (all_of-append cs ds r)
  | inr e ↦ rw e refl
]

module _ (t : LookupTable) (keyed : IsKeyed t) where
  ids_in_listed :
      (c v : String) (i : ℕ) (wanted : List String)
      → find_id (c, v) t.rows ≡ some i
      → contains (ids_in c wanted t.rows) i ≡ contains wanted v
  ids_in_listed c v i wanted h =
      Bool-same (contains (ids_in c wanted t.rows) i) (contains wanted v)
        (λ e.
          let (w, hit, m) = ids_in_wanted c i wanted t.rows e in
          let same = keyed.one_pair (c, w) (c, v) i (keyed.one_row (c, w) i m) h in
          subst (λ (x : String). contains wanted x ≡ true) (ap (λ (p : Pair). p.1) same) hit)
        (λ e. ids_in_complete c v i wanted t.rows e (find-In (c, v) i t.rows h))

  id_filter-passes :
      (c v : String) (r : Row) (wanted : List String) (column : Row → ℕ)
      → find_id (c, v) t.rows ≡ some (column r)
      → all_of (id_filter c wanted column t.rows) r ≡ passes wanted v
  id_filter-passes c v r [] column h = refl
  id_filter-passes c v r (w ∷ wanted) column h =
      let listed = ids_in_listed c v (column r) (w ∷ wanted) h in ground (arith, listed)

is_among-listed : (mains : List ℕ) (o : Option ℕ) → is_among mains o ≡ main_listed o mains
is_among-listed mains none = refl
is_among-listed mains (some main) = refl

any_of-append :
    (cs ds : List Condition) (r : Row) → any_of (cs ++ ds) r ≡ (any_of cs r || any_of ds r)
any_of-append [] ds r = refl
any_of-append (c ∷ cs) ds r = elim (Bool-cases (c r)) [
  | inl e ↦ rw e refl
  | inr e ↦ rw e (any_of-append cs ds r)
]

and_true : (b : Bool) → (b && true) ≡ b
and_true true = refl
and_true false = refl

main_listed_empty : (o : Option ℕ) → main_listed o [] ≡ false
main_listed_empty none = refl
main_listed_empty (some m) = refl

-- The telegram and the row have one DPT.
module _ (t : StoredTelegram) (r : Row) (main : t.dpt_main ≡ r.dpt_main)
    (sub : t.dpt_sub ≡ r.dpt_sub) where
  pair_condition-names : (d : ℕ × Option ℕ) → pair_condition d r ≡ names_dpt t d
  pair_condition-names (m, none) = ap (λ (o : Option ℕ). o == some m) (sym main)
  pair_condition-names (m, some s) = λ i. (sym main i == some m) && (sym sub i == some s)

  pair_conditions-any : (ds : List (ℕ × Option ℕ)) → any_of (map pair_condition ds) r ≡ any_dpt t ds
  pair_conditions-any [] = refl
  pair_conditions-any (d ∷ ds) = λ i. pair_condition-names d i || pair_conditions-any ds i

  mains_among : (mains : List ℕ) → main_condition mains r ≡ main_listed t.dpt_main mains
  mains_among mains = is_among-listed mains r.dpt_main ∙ ap (λ o. main_listed o mains) (sym main)

  dpt_filter-passes :
      (mains : List ℕ) (ds : List (ℕ × Option ℕ))
      → all_of
          (dpt_filter (
            (if is_nonempty mains then main_condition mains ∷ [] else []) ++ map pair_condition ds))
          r
        ≡ ((not (is_nonempty mains) && not (is_nonempty ds))
            || main_listed t.dpt_main mains
            || any_dpt t ds)
  dpt_filter-passes [] [] = refl
  dpt_filter-passes [] (d ∷ ds) =
      and_true (any_of (map pair_condition (d ∷ ds)) r)
      ∙ pair_conditions-any (d ∷ ds)
      ∙ ap (λ b. b || any_dpt t (d ∷ ds)) (sym (main_listed_empty t.dpt_main))
  dpt_filter-passes (m ∷ mains) ds =
      and_true (main_condition (m ∷ mains) r || any_of (map pair_condition ds) r)
      ∙ (λ i. mains_among (m ∷ mains) i || pair_conditions-any ds i)

start_filter-passes :
    (start : Option TimeBound) (r : Row)
    → all_of (start_filter start) r ≡ not_before start r.timestamp
start_filter-passes none r = refl
start_filter-passes (some start) r = and_true (leb (instant_of start) r.timestamp)

end_filter-passes :
    (end : Option TimeBound) (r : Row) → all_of (end_filter end) r ≡ not_after end r.timestamp
end_filter-passes none r = refl
end_filter-passes (some end) r = and_true (leb r.timestamp (instant_of end))

all_of-append_is :
    (cs ds : List Condition) (r : Row) (a b : Bool)
    → all_of cs r ≡ a
    → all_of ds r ≡ b
    → all_of (cs ++ ds) r ≡ (a && b)
all_of-append_is cs ds r a b h k = all_of-append cs ds r ∙ (λ i. h i && k i)

-- The conditions hold of a row if and only if the query matches its telegram.
pub filters-matches :
    (t : LookupTable) (keyed : IsKeyed t) (q : TelegramQuery) (u : StoredTelegram) (r : Row)
    → Encodes t.rows u r
    → matches q u ≡ all_of (filters t.rows q) r
unfolding matches filters
filters-matches t keyed q u r h =
    let sources = id_filter "source" q.sources (λ r. r.source_id) t.rows in
    let destinations = id_filter "destination" q.destinations (λ r. r.destination_id) t.rows in
    let types = id_filter "telegramtype" q.telegram_types (λ r. r.telegramtype_id) t.rows in
    let directions = id_filter "direction" q.directions (λ r. r.direction_id) t.rows in
    let dpts = dpt_filter (dpt_conditions q) in
    let start = start_filter q.start_time in
    let end = end_filter q.end_time in
    let by_source =
      id_filter-passes t keyed "source" u.source r q.sources (λ r. r.source_id) h.source in
    let by_destination =
      id_filter-passes t keyed "destination" u.destination r q.destinations (λ r. r.destination_id)
        h.destination in
    let by_type =
      id_filter-passes t keyed "telegramtype" u.telegramtype r q.telegram_types
        (λ r. r.telegramtype_id) h.telegramtype in
    let by_direction =
      id_filter-passes t keyed "direction" u.direction r q.directions (λ r. r.direction_id)
        h.direction in
    let by_dpt = dpt_filter-passes u r h.dpt_main h.dpt_sub q.dpt_mains q.dpts in
    let by_start =
      start_filter-passes q.start_time r ∙ ap (not_before q.start_time) (sym h.timestamp) in
    let by_end = end_filter-passes q.end_time r ∙ ap (not_after q.end_time) (sym h.timestamp) in
    let two = all_of-append_is sources destinations r _ _ by_source by_destination in
    let three = all_of-append_is (sources ++ destinations) types r _ _ two by_type in
    let four =
      all_of-append_is (sources ++ destinations ++ types) directions r _ _ three by_direction in
    let five =
      all_of-append_is (sources ++ destinations ++ types ++ directions) dpts r _ _ four by_dpt in
    let six =
      all_of-append_is (sources ++ destinations ++ types ++ directions ++ dpts) start r _ _ five
        by_start in
    sym (
      all_of-append_is (sources ++ destinations ++ types ++ directions ++ dpts ++ start) end r _ _
        six by_end)
