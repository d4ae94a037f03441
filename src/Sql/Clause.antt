-- ===== src/Sql/Clause.antt =====
-- The clause that `BaseSQLStore.query` builds against the telegrams that the query is for.
use knx_telegram_store.Prelude.{
  ℕ, Bool, true, false, ◌&&◌, ◌||◌, String, List, [], ◌∷◌, ◌++◌, map, Option, none, some, ◌≡◌, refl,
  ap, sym, ◌∙◌, if◌then◌else◌, is_nonempty, inl, inr, Bool-cases, if_true, if_false,
}
use knx_telegram_store.Prelude.Int.{ℤ, ◌*ℤ◌}
use knx_telegram_store.Prelude.Keep.{keep}
use knx_telegram_store.Prelude.Reorder.{Pairwise, Pairwise-keep}
use knx_telegram_store.Exceptions.{Result, ok}
use knx_telegram_store.Model.{Time, TimeBound, StoredTelegram}
use knx_telegram_store.Query.{TelegramQuery}
use knx_telegram_store.Query.Matching.{matches}
use knx_telegram_store.Lookup.{Dialect, postgresql, sqlite, other_dialect}
use knx_telegram_store.Lookup.Pairs.{Ids}
use knx_telegram_store.Sql.{Row, SqlStore}
use knx_telegram_store.Sql.Sound.{Encodes, IsSound}
use knx_telegram_store.Sql.Select.{
  Condition, id_filter, dpt_filter, dpt_conditions, main_condition, pair_condition, start_filter,
  end_filter, filters, all_of, delta_active, delta_of, in_range, exists_pivot, where_clause,
}
use knx_telegram_store.Sql.Matching.{filters-matches}
use knx_telegram_store.Sql.Chosen.{
  is_present, is_restricted, in_window, not_too_early, not_too_late, near_any, chosen,
  FitsTimedelta, milliseconds_fits, before_shift, after_shift,
}

is_nonempty-append :
    {A : Type 0} (xs ys : List A) (a b : Bool)
    → is_nonempty xs ≡ a
    → is_nonempty ys ≡ b
    → is_nonempty (xs ++ ys) ≡ (a || b)
is_nonempty-append [] ys a b h k = λ i. h i || k i
is_nonempty-append (x ∷ xs) ys a b h k = ap (λ c. c || b) h

id_filter-nonempty :
    (c : String) (wanted : List String) (column : Row → ℕ) (rows : Ids)
    → is_nonempty (id_filter c wanted column rows) ≡ is_nonempty wanted
id_filter-nonempty c [] column rows = refl
id_filter-nonempty c (w ∷ wanted) column rows = refl

dpt_filter-nonempty :
    (mains : List ℕ) (ds : List (ℕ × Option ℕ))
    → is_nonempty (
        dpt_filter
          ((if is_nonempty mains then main_condition mains ∷ [] else []) ++ map pair_condition ds))
      ≡ (is_nonempty mains || is_nonempty ds)
dpt_filter-nonempty [] [] = refl
dpt_filter-nonempty [] (d ∷ ds) = refl
dpt_filter-nonempty (m ∷ mains) ds = refl

start_filter-present : (o : Option TimeBound) → is_nonempty (start_filter o) ≡ is_present o
start_filter-present none = refl
start_filter-present (some t) = refl

end_filter-present : (o : Option TimeBound) → is_nonempty (end_filter o) ≡ is_present o
end_filter-present none = refl
end_filter-present (some t) = refl

filters-restricted :
    (rows : Ids) (q : TelegramQuery) → is_nonempty (filters rows q) ≡ is_restricted q
unfolding filters
filters-restricted rows q =
    let sources = id_filter "source" q.sources (λ r. r.source_id) rows in
    let destinations = id_filter "destination" q.destinations (λ r. r.destination_id) rows in
    let types = id_filter "telegramtype" q.telegram_types (λ r. r.telegramtype_id) rows in
    let directions = id_filter "direction" q.directions (λ r. r.direction_id) rows in
    let dpts = dpt_filter (dpt_conditions q) in
    let start = start_filter q.start_time in
    let end = end_filter q.end_time in
    let two =
      is_nonempty-append sources destinations _ _
        (id_filter-nonempty "source" q.sources (λ r. r.source_id) rows)
        (id_filter-nonempty "destination" q.destinations (λ r. r.destination_id) rows) in
    let three =
      is_nonempty-append (sources ++ destinations) types _ _ two
        (id_filter-nonempty "telegramtype" q.telegram_types (λ r. r.telegramtype_id) rows) in
    let four =
      is_nonempty-append (sources ++ destinations ++ types) directions _ _ three
        (id_filter-nonempty "direction" q.directions (λ r. r.direction_id) rows) in
    let five =
      is_nonempty-append (sources ++ destinations ++ types ++ directions) dpts _ _ four
        (dpt_filter-nonempty q.dpt_mains q.dpts) in
    let six =
      is_nonempty-append (sources ++ destinations ++ types ++ directions ++ dpts) start _ _ five
        (start_filter-present q.start_time) in
    is_nonempty-append (sources ++ destinations ++ types ++ directions ++ dpts ++ start) end _ _ six
      (end_filter-present q.end_time)

delta_of_fits :
    (dialect : Dialect) (ms : ℤ) → FitsTimedelta ms → delta_of dialect ms ≡ ok (ms *ℤ 1000)
delta_of_fits postgresql ms h = milliseconds_fits ms h
delta_of_fits sqlite ms h = refl
delta_of_fits other_dialect ms h = milliseconds_fits ms h

in_range-window :
    (q : TelegramQuery) (rows : Ids) (p t : StoredTelegram) (v r : Row)
    → Encodes rows p v
    → Encodes rows t r
    → in_range (q.delta_before_ms *ℤ 1000) (q.delta_after_ms *ℤ 1000) v r ≡ in_window q p t
in_range-window q rows p t v r h k =
    (λ i.
      before_shift v.timestamp r.timestamp q.delta_before_ms i
      && after_shift v.timestamp r.timestamp q.delta_after_ms i)
    ∙ (λ i.
        not_early (sym h.timestamp i) (sym k.timestamp i)
        && not_late (sym h.timestamp i) (sym k.timestamp i))
  where
    not_early : Time → Time → Bool
    not_early = not_too_early q

    not_late : Time → Time → Bool
    not_late = not_too_late q

exists_pivot-near :
    (q : TelegramQuery) (rows : Ids) (ps : List StoredTelegram) (vs : List Row) (t : StoredTelegram)
    (r : Row)
    → Pairwise (Encodes rows) ps vs
    → Encodes rows t r
    → near_any q ps t ≡ exists_pivot (q.delta_before_ms *ℤ 1000) (q.delta_after_ms *ℤ 1000) vs r
exists_pivot-near q rows [] [] t r h k = refl
exists_pivot-near q rows (p ∷ ps) (v ∷ vs) t r h k =
    λ i. sym (in_range-window q rows p t v r h.0 k) i || exists_pivot-near q rows ps vs t r h.1 k i
exists_pivot-near q rows [] (v ∷ vs) t r h k = absurd h
exists_pivot-near q rows (p ∷ ps) [] t r h k = absurd h

module _ (s : SqlStore) (q : TelegramQuery) (ts log : List StoredTelegram)
    (sound : IsSound s ts log) (before : FitsTimedelta q.delta_before_ms)
    (after : FitsTimedelta q.delta_after_ms) where
  abbrev rows : Ids
  rows = s.database.string_lookup.rows

  -- The clause is built, and holds of a row if and only if its telegram is chosen.
  abbrev pub Fits : Result Condition → Type 0
  Fits o =
      (c : Condition) × (o ≡ ok c)
      × ((t : StoredTelegram) (r : Row) → Encodes rows t r → chosen q ts t ≡ c r)

  windowed :
      (delta_active q && is_restricted q) ≡ true
      → Fits (where_clause s.dialect s.database.telegrams (filters rows q) q)
  unfolding where_clause chosen
  windowed active =
      let pivots = keep (all_of (filters rows q)) s.database.telegrams in
      let matching =
        Pairwise-keep (Encodes rows) (matches q) (all_of (filters rows q))
          (λ t r h. filters-matches s.database.string_lookup sound.keyed q t r h) ts
          s.database.telegrams sound.telegrams in
      (
        exists_pivot (q.delta_before_ms *ℤ 1000) (q.delta_after_ms *ℤ 1000) pivots,
        rw
            (
              filters-restricted rows q,
              active,
              delta_of_fits s.dialect q.delta_before_ms before,
              delta_of_fits s.dialect q.delta_after_ms after,
            )
            refl,
        λ t r h.
            if_true (delta_active q && is_restricted q) _ _ active
            ∙ exists_pivot-near q rows (keep (matches q) ts) pivots t r matching h,
      )

  plain :
      (delta_active q && is_restricted q) ≡ false
      → Fits (where_clause s.dialect s.database.telegrams (filters rows q) q)
  unfolding where_clause chosen
  plain inactive = (
    all_of (filters rows q),
    rw (filters-restricted rows q, inactive) refl,
    λ t r h.
        if_false (delta_active q && is_restricted q) _ _ inactive
        ∙ filters-matches s.database.string_lookup sound.keyed q t r h,
  )

  pub where_clause-chosen : Fits (where_clause s.dialect s.database.telegrams (filters rows q) q)
  where_clause-chosen = elim (Bool-cases (delta_active q && is_restricted q)) [
    | inl active ↦ windowed active
    | inr inactive ↦ plain inactive
  ]
