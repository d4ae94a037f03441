-- ===== src/Sqlite/Shifts.antt =====
-- The intervals against the zone: each time has the offset in force at it.
use mathlib.Core.Path.{subst}
use knx_telegram_store.Prelude.{
  ℕ, zero, suc, ◌+◌, ◌-◌, ◌*◌, ◌/◌, ◌≤◌, ◌<◌, true, false, List, [], ◌∷◌, leb, ltb, if◌then◌else◌,
  is_nonempty, nat_eq, ◌≡◌, refl, ap, sym, ◌∙◌, arith, Bool-cases, inl, inr, if_true, if_false,
  if_ind, le→leb,
}
use knx_telegram_store.Prelude.Int.{ℤ, pos}
use knx_telegram_store.Model.{Time, Timedelta}
use knx_telegram_store.Sqlite.Offsets.{
  second, hour, same_offset, floor_hour, Interval, offset_at, transition_between, walk,
  offset_intervals, any_offset, case_offset,
}
use knx_telegram_store.Sqlite.Bisect.{same_offset→≡, same_offset_refl, transition_between-Changes}

-- Within an hour the offset changes at most once, in some second: before it the offset is that at the
-- start of the hour, and from it on that at the end.
pub record ChangesOnce (utcoffset : Time → Timedelta) (t : Time) : Type 0 where
  pub change : ℕ
  pub behind : t < change * second
  pub before_change :
      (x : Time)
      → t ≤ x
      → x < change * second
      → x ≤ t + hour
      → offset_at utcoffset x ≡ offset_at utcoffset t
  pub after_change :
      (x : Time)
      → change * second ≤ x
      → x ≤ t + hour
      → offset_at utcoffset x ≡ offset_at utcoffset (t + hour)

case_offset-head :
    (i : Interval) (is : List Interval) (t : Time)
    → is_nonempty is ≡ true
    → case_offset (i ∷ is) t ≡ (if ltb t i.end_exclusive then i.offset else case_offset is t)
unfolding case_offset
case_offset-head i is t h = rw h refl

lt→ltb : (a b : ℕ) → a < b → ltb a b ≡ true
lt→ltb a b h = ground arith

module _ (utcoffset : Time → Timedelta) (steady : (t : Time) → ChangesOnce utcoffset t) where
  abbrev at : Time → ℤ
  at = offset_at utcoffset

  -- The bisection finds the change of an hour whose ends have two offsets.
  boundary_is :
      (t : Time)
      → same_offset (at (t + hour)) (at t) ≡ false
      → (steady t).change * second ≤ t + hour
        × (transition_between utcoffset t (t + hour) (at t) ≡ (steady t).change * second)
  boundary_is t h =
      let z = steady t in
      let inside : z.change * second ≤ t + hour =
        elim (Bool-cases (leb (z.change * second) (t + hour))) [
          | inl l ↦ ground (arith, l)
          | inr o ↦
              let same =
                z.before_change (t + hour) (omega arith) (ground (arith, o)) (omega arith) in
              absurd (cc (h, same, same_offset_refl (at t)))
        ] in
      (
        inside,
        transition_between-Changes utcoffset (at t) z.change t (t + hour)
            (record {
              behind = z.behind;
              reached = inside;
              kept = λ x a b. z.before_change x a b (omega (arith, b, inside));
              left = λ x a b. ap (λ o. same_offset o (at t)) (z.after_change x a b) ∙ h;
            })
            (omega arith),
      )

  -- Within an hour at whose ends the offset is one, it is that one.
  steady_hour : (t x : Time) → at (t + hour) ≡ at t → t ≤ x → x ≤ t + hour → at x ≡ at t
  steady_hour t x e a b = elim (Bool-cases (ltb x ((steady t).change * second))) [
    | inl l ↦ (steady t).before_change x a (ground (arith, l)) b
    | inr o ↦ (steady t).after_change x (ground (arith, o)) b ∙ e
  ]

  -- What holds of the intervals of the walk from the cursor behind `previous`.
  record Walks (newest previous : Time) (is : List Interval) : Type 0 where
    nonempty : is_nonempty is ≡ true
    early : (x : Time) → x ≤ previous → case_offset is x ≡ at previous
    later : (x : Time) → previous ≤ x → x ≤ newest → case_offset is x ≡ at x

  tail-Walks :
      (newest previous start end : Time) (current : ℤ)
      → current ≡ at previous
      → newest < previous
      → Walks newest previous (record { start = start; end_exclusive = end; offset = current } ∷ [])
  unfolding case_offset
  tail-Walks newest previous start end current e h = record {
    nonempty = refl;
    early = λ x a. e;
    later = λ x a b. absurd (omega (arith, a, b, h));
  }

  -- A round without a change.
  same-Walks :
      (newest previous : Time) (is : List Interval)
      → at (previous + hour) ≡ at previous
      → Walks newest (previous + hour) is
      → Walks newest previous is
  same-Walks newest previous is e h = record {
    nonempty = h.nonempty;
    early = λ x a. h.early x (omega (arith, a)) ∙ e;
    later = λ x a b. elim (Bool-cases (leb x (previous + hour))) [
      | inl l ↦
          let near : x ≤ previous + hour = ground (arith, l) in
          h.early x near ∙ e ∙ sym (steady_hour previous x e a near)
      | inr o ↦ h.later x (ground (arith, o)) b
    ];
  }

  -- A round with a change.
  changed-Walks :
      (newest previous start boundary : Time) (current : ℤ) (is : List Interval)
      → current ≡ at previous
      → boundary ≡ (steady previous).change * second
      → boundary ≤ previous + hour
      → Walks newest (previous + hour) is
      → Walks newest previous
          (record { start = start; end_exclusive = boundary; offset = current } ∷ is)
  changed-Walks newest previous start boundary current is e same inside h =
      let z = steady previous in
      let i : Interval = record { start = start; end_exclusive = boundary; offset = current } in
      record {
        nonempty = refl;
        early = λ x a.
            case_offset-head i is x h.nonempty
            ∙ if_true (ltb x boundary) current (case_offset is x)
                (lt→ltb x boundary (omega (arith, a, z.behind, same)))
            ∙ e;
        later = λ x a b. case_offset-head i is x h.nonempty ∙ elim (Bool-cases (ltb x boundary)) [
          | inl l ↦
              let less : x < boundary = ground (arith, l) in
              if_true (ltb x boundary) current (case_offset is x) l
              ∙ e
              ∙ sym (z.before_change x a (omega (arith, less, same)) (omega (arith, less, inside)))
          | inr o ↦
              let more : boundary ≤ x = ground (arith, o) in
              if_false (ltb x boundary) current (case_offset is x) o
              ∙ elim (Bool-cases (leb x (previous + hour))) [
                | inl l ↦
                    let near : x ≤ previous + hour = ground (arith, l) in
                    h.early x near ∙ sym (z.after_change x (omega (arith, more, same)) near)
                | inr far ↦ h.later x (ground (arith, far)) b
              ]
        ];
      }

  walk-Walks :
      (n : ℕ) (newest previous start : Time) (current : ℤ)
      → current ≡ at previous
      → newest < previous + n * hour
      → Walks newest previous
          (walk utcoffset n (newest + hour) (previous + hour) previous current start)
  unfolding walk
  walk-Walks zero newest previous start current e h =
      tail-Walks newest previous start (newest + hour + hour) current e (omega (arith, h))
  walk-Walks (suc n) newest previous start current e h =
      elim (Bool-cases (leb (previous + hour) (newest + hour))) [
        | inr done ↦ rw done (
            tail-Walks newest previous start (newest + hour + hour) current e
              (ground (arith, done)))
        | inl more ↦ rw more (elim (Bool-cases (same_offset (at (previous + hour)) current)) [
          | inl same ↦
              let kept : at (previous + hour) ≡ current = same_offset→≡ _ _ same in
              rw same (
                same-Walks newest previous _ (kept ∙ e) (
                  walk-Walks n newest (previous + hour) start current (sym kept)
                    (omega (arith, h))))
          | inr other ↦
              let moved : same_offset (at (previous + hour)) (at previous) ≡ false =
                subst (λ c. same_offset (at (previous + hour)) c ≡ false) e other in
              let (inside, found) = boundary_is previous moved in
              let boundary = transition_between utcoffset previous (previous + hour) current in
              let same : boundary ≡ (steady previous).change * second =
                ap (transition_between utcoffset previous (previous + hour)) e ∙ found in
              rw other (
                changed-Walks newest previous start boundary current _ e same
                  (omega (arith, same, inside))
                  (walk-Walks n newest (previous + hour) boundary (at (previous + hour)) refl
                    (omega (arith, h))))
        ])
      ]

  -- The intervals of a range give each time of the range the offset in force at it.
  pub offset_intervals-offset :
      (oldest newest x : Time)
      → oldest ≤ x
      → x ≤ newest
      → case_offset (offset_intervals utcoffset oldest newest) x ≡ at x
  unfolding offset_intervals
  offset_intervals-offset oldest newest x a b =
      let cursor = floor_hour oldest in
      let begins : cursor ≤ oldest = omega arith in
      let walks =
        walk-Walks (suc ((newest + hour - cursor) / hour)) newest cursor cursor (at cursor) refl
          (omega (arith, begins, a, b)) in
      ap (λ is. case_offset is x)
        (if_true (leb cursor (newest + hour)) _ []
          (le→leb cursor (newest + hour) (omega (arith, begins, a, b))))
      ∙ walks.later x (omega (arith, begins, a)) b

pub case_offset-none :
    (is : List Interval) (t : Time) → any_offset is ≡ false → case_offset is t ≡ pos 0
unfolding case_offset
case_offset-none [] t h = refl
case_offset-none (i ∷ is) t h =
    let none_here : i.offset ≡ pos 0 = elim (Bool-cases (same_offset i.offset (pos 0))) [
      | inl same ↦ same_offset→≡ i.offset (pos 0) same
      | inr other ↦ absurd (cc (rw other at h))
    ] in
    let rest : any_offset is ≡ false = elim (Bool-cases (same_offset i.offset (pos 0))) [
      | inl same ↦ rw same at h
      | inr other ↦ absurd (cc (rw other at h))
    ] in
    if_ind (λ o. o ≡ pos 0) (is_nonempty is)
      (λ _.
        if_ind (λ o. o ≡ pos 0) (ltb t i.end_exclusive) (λ _. none_here)
          (λ _. case_offset-none is t rest))
      (λ _. none_here)
