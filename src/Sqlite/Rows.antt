-- ===== src/Sqlite/Rows.antt =====
-- The update of the rows in scope against the zone's offset at each of them.
use mathlib.Core.Path.{subst}
use knx_telegram_store.Prelude.{
  ℕ, ◌≤◌, Bool, true, false, not, List, [], ◌∷◌, map, if◌then◌else◌, ◌≡◌, refl, ap, sym, ◌∙◌, arith,
  In, inl, inr, Bool-cases, if_ind, if_true, if_false,
}
use knx_telegram_store.Prelude.Int.{ℤ, pos, negsuc, pos_part, neg_ℤ, ◌+ℤ◌, ◌*ℤ◌, ltb_ℤ}
use knx_telegram_store.Prelude.Keep.{keep, In-keep}
use knx_telegram_store.Model.{Time, Timedelta}
use knx_telegram_store.Sqlite.Offsets.{second, offset_at, offset_intervals, any_offset}
use knx_telegram_store.Sqlite.Shifts.{ChangesOnce, case_offset-none, offset_intervals-offset}
use knx_telegram_store.Sqlite.Migrate.{
  StampedRow, Scope, in_scope, least_stamp, greatest_stamp, shifted_row, update_rows, convert_rows,
}

less-parts : (a b : ℤ) → ltb_ℤ a b ≡ true → pos_part a ≤ pos_part b
less-parts (pos a) (pos b) h = ground arith
less-parts (pos a) (negsuc b) h = ground arith
less-parts (negsuc a) (pos b) h = ground arith
less-parts (negsuc a) (negsuc b) h = ground arith

not_less-parts : (a b : ℤ) → ltb_ℤ a b ≡ false → pos_part b ≤ pos_part a
not_less-parts (pos a) (pos b) h = ground arith
not_less-parts (pos a) (negsuc b) h = ground arith
not_less-parts (negsuc a) (pos b) h = ground arith
not_less-parts (negsuc a) (negsuc b) h = ground arith

least_stamp-le :
    (m : ℤ) (rows : List StampedRow)
    → (pos_part (least_stamp m rows) ≤ pos_part m)
      × ((r : StampedRow) → In r rows → pos_part (least_stamp m rows) ≤ pos_part r.stamp)
unfolding least_stamp
least_stamp-le m [] = (omega arith, λ r i. absurd i)
least_stamp-le m (x ∷ rows) = elim (Bool-cases (ltb_ℤ x.stamp m)) [
  | inl l ↦
      let (a, b) = least_stamp-le x.stamp rows in
      let c = less-parts x.stamp m l in
      rw l (
        omega (arith, a, c),
        λ r i. elim i [
          | inl e ↦ omega (arith, a, ap (λ (y : StampedRow). pos_part y.stamp) e)
          | inr j ↦ b r j
        ],
      )
  | inr o ↦
      let (a, b) = least_stamp-le m rows in
      let c = not_less-parts x.stamp m o in
      rw o (
        a,
        λ r i. elim i [
          | inl e ↦ omega (arith, a, c, ap (λ (y : StampedRow). pos_part y.stamp) e)
          | inr j ↦ b r j
        ],
      )
]

greatest_stamp-ge :
    (m : ℤ) (rows : List StampedRow)
    → (pos_part m ≤ pos_part (greatest_stamp m rows))
      × ((r : StampedRow) → In r rows → pos_part r.stamp ≤ pos_part (greatest_stamp m rows))
unfolding greatest_stamp
greatest_stamp-ge m [] = (omega arith, λ r i. absurd i)
greatest_stamp-ge m (x ∷ rows) = elim (Bool-cases (ltb_ℤ m x.stamp)) [
  | inl l ↦
      let (a, b) = greatest_stamp-ge x.stamp rows in
      let c = less-parts m x.stamp l in
      rw l (
        omega (arith, a, c),
        λ r i. elim i [
          | inl e ↦ omega (arith, a, ap (λ (y : StampedRow). pos_part y.stamp) e)
          | inr j ↦ b r j
        ],
      )
  | inr o ↦
      let (a, b) = greatest_stamp-ge m rows in
      let c = not_less-parts m x.stamp o in
      rw o (
        a,
        λ r i. elim i [
          | inl e ↦ omega (arith, a, c, ap (λ (y : StampedRow). pos_part y.stamp) e)
          | inr j ↦ b r j
        ],
      )
]

-- A row with the offset of the zone at its timestamp subtracted, if it is in scope.
abbrev pub in_utc : (Time → Timedelta) → Scope → StampedRow → StampedRow
in_utc utcoffset scope r =
    if in_scope scope r
    then record r { stamp = r.stamp +ℤ neg_ℤ (offset_at utcoffset (pos_part r.stamp) *ℤ second) }
    else r

map-In :
    (f g : StampedRow → StampedRow) (rows : List StampedRow)
    → ((r : StampedRow) → In r rows → f r ≡ g r)
    → map f rows ≡ map g rows
map-In f g [] h = refl
map-In f g (r ∷ rows) h = λ i. h r (inl refl) i ∷ map-In f g rows (λ x j. h x (inr j)) i

map-In_same :
    (g : StampedRow → StampedRow) (rows : List StampedRow)
    → ((r : StampedRow) → In r rows → r ≡ g r)
    → rows ≡ map g rows
map-In_same g [] h = refl
map-In_same g (r ∷ rows) h = λ i. h r (inl refl) i ∷ map-In_same g rows (λ x j. h x (inr j)) i

less_nothing : (a : ℤ) → a ≡ a +ℤ neg_ℤ (pos 0 *ℤ second)
less_nothing (pos n) = ground arith
less_nothing (negsuc n) = ground arith

module _ (utcoffset : Time → Timedelta) (steady : (t : Time) → ChangesOnce utcoffset t)
    (scope : Scope) where
  shifted-in_utc :
      (oldest newest : Time) (r : StampedRow)
      → ((in_scope scope r ≡ true) → (oldest ≤ pos_part r.stamp) × (pos_part r.stamp ≤ newest))
      → (if in_scope scope r then shifted_row (offset_intervals utcoffset oldest newest) r else r)
        ≡ in_utc utcoffset scope r
  shifted-in_utc oldest newest r within = elim (Bool-cases (in_scope scope r)) [
    | inl s ↦
        let offsets =
          offset_intervals-offset utcoffset steady oldest newest (pos_part r.stamp) (within s).0
            (within s).1 in
        if_true (in_scope scope r) _ r s
        ∙ ap (λ o. record r { stamp = r.stamp +ℤ neg_ℤ (o *ℤ second) }) offsets
        ∙ sym (if_true (in_scope scope r) _ r s)
    | inr o ↦ if_false (in_scope scope r) _ r o ∙ sym (if_false (in_scope scope r) _ r o)
  ]

  -- Where no interval has an offset, there is nothing to subtract.
  same-in_utc :
      (oldest newest : Time) (r : StampedRow)
      → any_offset (offset_intervals utcoffset oldest newest) ≡ false
      → ((in_scope scope r ≡ true) → (oldest ≤ pos_part r.stamp) × (pos_part r.stamp ≤ newest))
      → r ≡ in_utc utcoffset scope r
  same-in_utc oldest newest r none_at_all within = elim (Bool-cases (in_scope scope r)) [
    | inl s ↦
        let offsets =
          offset_intervals-offset utcoffset steady oldest newest (pos_part r.stamp) (within s).0
            (within s).1 in
        let zero_there =
          case_offset-none (offset_intervals utcoffset oldest newest) (pos_part r.stamp)
            none_at_all in
        ap (λ n. record r { stamp = n }) (less_nothing r.stamp)
        ∙ ap (λ o. record r { stamp = r.stamp +ℤ neg_ℤ (o *ℤ second) }) (sym zero_there ∙ offsets)
        ∙ sym (if_true (in_scope scope r) _ r s)
    | inr o ↦ sym (if_false (in_scope scope r) _ r o)
  ]

  update_rows-in_utc :
      (bounds rows : List StampedRow)
      → ((r : StampedRow) → In r rows → in_scope scope r ≡ true → In r bounds)
      → (update_rows utcoffset scope bounds rows).0 ≡ map (in_utc utcoffset scope) rows
  update_rows-in_utc [] rows there = map-In_same (in_utc utcoffset scope) rows (λ r i.
      elim (Bool-cases (in_scope scope r)) [
        | inl s ↦ absurd (there r i s)
        | inr o ↦ sym (if_false (in_scope scope r) _ r o)
      ])
  update_rows-in_utc (first ∷ others) rows there =
      let oldest = pos_part (least_stamp first.stamp others) in
      let newest = pos_part (greatest_stamp first.stamp others) in
      let low = least_stamp-le first.stamp others in
      let high = greatest_stamp-ge first.stamp others in
      let within : (r : StampedRow)
          → In r rows
          → in_scope scope r ≡ true
          → (oldest ≤ pos_part r.stamp) × (pos_part r.stamp ≤ newest) =
        (λ r i s. elim (there r i s) [
          | inl e ↦
              subst (λ (x : StampedRow). (oldest ≤ pos_part x.stamp) × (pos_part x.stamp ≤ newest))
                e (low.0, high.0)
          | inr j ↦ (low.1 r j, high.1 r j)
        ]) in
      if_ind (λ (o : List StampedRow × ℕ). o.0 ≡ map (in_utc utcoffset scope) rows)
        (not (any_offset (offset_intervals utcoffset oldest newest)))
        (λ h.
          map-In_same (in_utc utcoffset scope) rows
            (λ r i. same-in_utc oldest newest r (not-false _ h) (within r i)))
        (λ _.
          map-In _ (in_utc utcoffset scope) rows
            (λ r i. shifted-in_utc oldest newest r (within r i)))
    where
      not-false : (b : Bool) → not b ≡ true → b ≡ false
      not-false true h = absurd (cc (h))
      not-false false h = refl

-- The one update statement of a table subtracts from the wall-clock timestamp of each row in scope the
-- offset that the zone has at it, to the second in which the offset changes, and keeps the other rows.
-- The condition is that the offset changes at most once in an hour, on a second.
pub convert_rows-in_utc :
    (utcoffset : Time → Timedelta) (scope : Scope) (rows : List StampedRow)
    → ((t : Time) → ChangesOnce utcoffset t)
    → (convert_rows utcoffset scope rows).0 ≡ map (in_utc utcoffset scope) rows
unfolding convert_rows
convert_rows-in_utc utcoffset scope rows steady =
    update_rows-in_utc utcoffset steady scope (keep (in_scope scope) rows) rows
      (λ r i s. (In-keep (in_scope scope) r rows).1 (i, s))
