-- ===== src/Sqlite/Bisect.antt =====
-- The bisection finds the second in which the offset changes.
use knx_telegram_store.Prelude.{
  ℕ, zero, suc, ◌+◌, ◌-◌, ◌*◌, ◌≤◌, ◌<◌, true, false, ltb, nat_eq, ◌≡◌, ap, arith, Bool-cases, inl,
  inr, ltb→lt,
}
use knx_telegram_store.Prelude.Int.{ℤ, pos, negsuc}
use knx_telegram_store.Model.{Time, Timedelta}
use knx_telegram_store.Sqlite.Offsets.{
  second, same_offset, half, floor_second, offset_at, bisect, transition_between,
}

pub same_offset→≡ : (a b : ℤ) → same_offset a b ≡ true → a ≡ b
same_offset→≡ (pos a) (pos b) h = ap pos (ground arith)
same_offset→≡ (negsuc a) (negsuc b) h = ap negsuc (ground arith)
same_offset→≡ (pos a) (negsuc b) h = absurd (cc (h))
same_offset→≡ (negsuc a) (pos b) h = absurd (cc (h))

pub same_offset_refl : (a : ℤ) → same_offset a a ≡ true
same_offset_refl (pos a) = ground arith
same_offset_refl (negsuc a) = ground arith

half_bounds : (n : ℕ) → (n ≤ half n + half n + 1) × (half n + half n ≤ n + 1)
half_bounds n = ground arith

-- The width that a number of halvings brings below a second.
abbrev width : ℕ → ℕ
width zero = second
width (suc n) = width n + width n

-- What one halving leaves of a range.
half-width : (n d : ℕ) → d ≤ width (suc n) → (half d ≤ width n) × (d - half d ≤ width n)
half-width n d h = let (a, b) = half_bounds d in (omega (arith, a, b, h), omega (arith, a, b, h))

floor_second_unique :
    (s before after : ℕ)
    → before < s * second
    → s * second ≤ after
    → after ≤ before + second
    → floor_second after ≡ s * second
floor_second_unique s before after h k l = omega arith

module _ (utcoffset : Time → Timedelta) (offset : ℤ) (s : ℕ) where
  -- Between the bounds the offset is in force before the second `s`, and not from then on.
  pub record Changes (before after : Time) : Type 0 where
    pub behind : before < s * second
    pub reached : s * second ≤ after
    pub kept : (t : Time) → before ≤ t → t < s * second → offset_at utcoffset t ≡ offset
    pub left :
        (t : Time) → s * second ≤ t → t ≤ after → same_offset (offset_at utcoffset t) offset ≡ false

  upper_half :
      (before middle after : Time)
      → Changes before after
      → before ≤ middle
      → middle ≤ after
      → same_offset (offset_at utcoffset middle) offset ≡ true
      → Changes middle after
  upper_half before middle after c low high same =
      let below : middle < s * second = elim (Bool-cases (ltb middle (s * second))) [
        | inl l ↦ ground (arith, l)
        | inr o ↦ absurd (cc (same, c.left middle (ground (arith, o)) high))
      ] in
      record {
        behind = below;
        reached = c.reached;
        kept = λ t a b. c.kept t (omega (arith, a, low)) b;
        left = c.left;
      }

  lower_half :
      (before middle after : Time)
      → Changes before after
      → before ≤ middle
      → middle ≤ after
      → same_offset (offset_at utcoffset middle) offset ≡ false
      → Changes before middle
  lower_half before middle after c low high other =
      let above : s * second ≤ middle = elim (Bool-cases (ltb middle (s * second))) [
        | inl l ↦
            let kept = c.kept middle low (ground (arith, l)) in
            absurd (cc (other, ap (λ o. same_offset o offset) kept, same_offset_refl offset))
        | inr o ↦ ground (arith, o)
      ] in
      record {
        behind = c.behind;
        reached = above;
        kept = c.kept;
        left = λ t a b. c.left t a (omega (arith, b, high));
      }

  bisect-Changes :
      (n : ℕ) (before after : Time)
      → Changes before after
      → after - before ≤ width n
      → bisect utcoffset n before after offset ≡ s * second
  unfolding bisect
  bisect-Changes zero before after c w =
      floor_second_unique s before after c.behind c.reached (omega (arith, w))
  bisect-Changes (suc n) before after c w =
      let d = after - before in
      let middle = before + half d in
      elim (Bool-cases (ltb second (after - before))) [
        | inr done ↦
            rw done (floor_second_unique s before after c.behind c.reached (ground (arith, done)))
        | inl more ↦
            let (a, b) = half_bounds d in
            let (p, r) = half-width n d w in
            let long : second < d = ltb→lt second d more in
            let low : before ≤ middle = omega arith in
            let high : middle ≤ after = omega (arith, a, b, long, c.behind, c.reached) in
            rw more (elim (Bool-cases (same_offset (offset_at utcoffset middle) offset)) [
              | inl same ↦ rw same (
                  bisect-Changes n middle after (upper_half before middle after c low high same)
                    (omega (arith, r, high)))
              | inr other ↦ rw other (
                  bisect-Changes n before middle (lower_half before middle after c low high other)
                    (omega (arith, p)))
            ])
      ]

  pub transition_between-Changes :
      (before after : Time)
      → Changes before after
      → after ≤ before + 18446744073709551616
      → transition_between utcoffset before after offset ≡ s * second
  unfolding transition_between
  transition_between-Changes before after c w = bisect-Changes 64 before after c (omega (arith, w))
