-- ===== src/Memory/Window.antt =====
-- The context window of `MemoryStore.query`: the binary search against "some pivot lies in the window".
use mathlib.Core.Path.{subst}
use knx_telegram_store.Prelude.{
  ℕ, ◌≤◌, ◌+◌, ◌*◌, true, false, List, [], ◌∷◌, map, arith, ◌≡◌, refl, ◌↔◌, inl, inr, leb, ltb, In,
  All-In, In-map, Bool-cases, leb→le, le→leb, ltb→lt, sym, if◌then◌else◌,
}
use knx_telegram_store.Prelude.Int.{pos_part, neg_part}
use knx_telegram_store.Prelude.Keep.{keep, In-keep}
use knx_telegram_store.Prelude.Sorting.{sort, IsSorted, sort-IsSorted, In-sort}
use knx_telegram_store.Exceptions.{ok, >>=-eq-ok, ok-injective}
use knx_telegram_store.Model.{Time, Timedelta, StoredTelegram}
use knx_telegram_store.Query.{TelegramQuery}
use knx_telegram_store.Query.Matching.{matches}
use knx_telegram_store.Memory.Times.{
  milliseconds, plus, minus, milliseconds_exact, plus_exact, minus_exact,
}
use knx_telegram_store.Memory.Select.{
  bisect_left, has_pivot, collect_context, expand_context, delta_active, apply_filters, select,
  in_order,
}
use knx_telegram_store.Memory.Filters.{apply_filters-kept}

abbrev Between : List Time → Time → Time → Type 0
Between pivots low high = (p : Time) × In p pivots × (low ≤ p) × (p ≤ high)

has_pivot-Between :
    (pivots : List Time) (low high : Time)
    → has_pivot pivots low high ≡ true
    → Between pivots low high
unfolding has_pivot
has_pivot-Between [] low high h = absurd (cc)
has_pivot-Between (y ∷ ys) low high h = elim (Bool-cases (ltb y low)) [
  | inl less ↦ let (p, i, a, b) = has_pivot-Between ys low high (ground arith) in (p, inr i, a, b)
  | inr stop ↦ (y, inl refl, ground arith, ground arith)
]

Between-has_pivot :
    (pivots : List Time) (low high p : Time)
    → IsSorted leb pivots
    → In p pivots
    → low ≤ p
    → p ≤ high
    → has_pivot pivots low high ≡ true
unfolding has_pivot
Between-has_pivot [] low high p s i a b = absurd i
Between-has_pivot (y ∷ ys) low high p s i a b = elim (Bool-cases (ltb y low)) [
  | inl less ↦ elim i [
    | inl e ↦ absurd (omega (arith, ltb→lt y low less))
    | inr j ↦ rw (less, has_pivot, bisect_left) (Between-has_pivot ys low high p s.1 j a b)
  ]
  | inr stop ↦
      let above : y ≤ p = elim i [
        | inl e ↦ omega arith
        | inr j ↦ leb→le y p (All-In (λ x. leb y x ≡ true) ys p s.0 j)
      ] in
      rw (stop, has_pivot) (le→leb y high (omega arith))
]

leb_total : (a b : ℕ) → leb a b ≡ false → leb b a ≡ true
leb_total a b h = ground arith

leb_trans : (a b c : ℕ) → leb a b ≡ true → leb b c ≡ true → leb a c ≡ true
leb_trans a b c h k = ground arith

-- The telegram `t` lies in the window that the query opens round the pivot `p`; a negative delta
-- narrows its side.
pub record WithinWindow (q : TelegramQuery) (p t : StoredTelegram) : Type 0 where
  pub not_too_early :
      p.timestamp + neg_part q.delta_before_ms * 1000
      ≤ t.timestamp + pos_part q.delta_before_ms * 1000
  pub not_too_late :
      t.timestamp + neg_part q.delta_after_ms * 1000
      ≤ p.timestamp + pos_part q.delta_after_ms * 1000

abbrev InWindow : Timedelta → Timedelta → StoredTelegram → Time → Type 0
InWindow before after t p =
    (p + neg_part before ≤ t.timestamp + pos_part before)
    × (t.timestamp + neg_part after ≤ p + pos_part after)

module _ (pivots : List Time) (before after : Timedelta) (sorted : IsSorted leb pivots) where
  abbrev HasWindow : StoredTelegram → Type 0
  HasWindow t = (p : Time) × In p pivots × InWindow before after t p

  window_test :
      (t : StoredTelegram) (low high : Time)
      → minus t.timestamp after ≡ ok low
      → plus t.timestamp before ≡ ok high
      → (has_pivot pivots low high ≡ true) ↔ HasWindow t
  window_test t low high e f = (
    λ h.
        let (p, i, a, b) = has_pivot-Between pivots low high h in
        (
          p,
          i,
          (
            omega (arith, plus_exact t.timestamp before high f),
            omega (arith, minus_exact t.timestamp after low e),
          ),
        ),
    λ h.
        let (p, i, w) = h in
        Between-has_pivot pivots low high p sorted i
          (omega (arith, minus_exact t.timestamp after low e))
          (omega (arith, plus_exact t.timestamp before high f)),
  )

  -- One round of the loop, with the telegrams that the later rounds collect.
  collect_round :
      (low high : Time) (u : StoredTelegram) (us context : List StoredTelegram) (t : StoredTelegram)
      → minus u.timestamp after ≡ ok low
      → plus u.timestamp before ≡ ok high
      → (In t context ↔ (In t us × HasWindow t))
      → In t (if has_pivot pivots low high then u ∷ context else context)
        ↔ (In t (u ∷ us) × HasWindow t)
  collect_round low high u us context t e f rest = elim (Bool-cases (has_pivot pivots low high)) [
    | inl hit ↦ rw hit (
      λ m. elim m [
        | inl same ↦ (inl same, subst HasWindow same ((window_test u low high e f).0 hit))
        | inr i ↦ let (j, w) = rest.0 i in (inr j, w)
      ],
      λ h. elim h.0 [ inl same ↦ inl same | inr j ↦ inr (rest.1 (j, h.1)) ],
    )
    | inr miss ↦ rw miss (
      λ i. let (j, w) = rest.0 i in (inr j, w),
      λ h. elim h.0 [
        | inl same ↦
            let hit = (window_test u low high e f).1 (subst HasWindow (sym same) h.1) in
            absurd (cc (hit, miss))
        | inr j ↦ rest.1 (j, h.1)
      ],
    )
  ]

  collect_context-In :
      (ts results : List StoredTelegram) (t : StoredTelegram)
      → collect_context pivots before after ts ≡ ok results
      → In t results ↔ (In t ts × HasWindow t)
  unfolding collect_context
  collect_context-In [] results t h =
      subst (λ r. In t r ↔ (⊥ × HasWindow t)) (ok-injective h) (λ i. absurd i, λ i. i.0)
  collect_context-In (u ∷ us) results t h =
      let (low, e, h1) = >>=-eq-ok (minus u.timestamp after) _ h in
      let (high, f, h2) = >>=-eq-ok (plus u.timestamp before) _ h1 in
      let (context, g, h3) = >>=-eq-ok (collect_context pivots before after us) _ h2 in
      subst (λ r. In t r ↔ (In t (u ∷ us) × HasWindow t)) (ok-injective h3)
        (collect_round low high u us context t e f (collect_context-In us context t g))

-- The window in microseconds is the window in milliseconds.
InWindow-WithinWindow :
    (q : TelegramQuery) (before after : Timedelta) (p t : StoredTelegram)
    → milliseconds q.delta_before_ms ≡ ok before
    → milliseconds q.delta_after_ms ≡ ok after
    → InWindow before after t p.timestamp ↔ WithinWindow q p t
InWindow-WithinWindow q before after p t e f = (
  λ w. record {
    not_too_early = omega (arith, milliseconds_exact q.delta_before_ms before e);
    not_too_late = omega (arith, milliseconds_exact q.delta_after_ms after f);
  },
  λ w. (
    omega (arith, milliseconds_exact q.delta_before_ms before e),
    omega (arith, milliseconds_exact q.delta_after_ms after f),
  ),
)

abbrev pub timestamps : List StoredTelegram → List Time
timestamps = map (λ t. t.timestamp)

module _ (q : TelegramQuery) (telegrams : List StoredTelegram) where
  abbrev pub HasPivot : StoredTelegram → Type 0
  HasPivot t = (p : StoredTelegram) × In p telegrams × (matches q p ≡ true) × WithinWindow q p t

  abbrev pivots_of : List Time
  pivots_of = sort leb (timestamps (keep (matches q) telegrams))

  pivots_of-In :
      (x : Time)
      → In x pivots_of
        ↔ ((p : StoredTelegram) × In p telegrams × (matches q p ≡ true) × (p.timestamp ≡ x))
  pivots_of-In x = (
    λ i.
        let matched = (In-sort leb x _).0 i in
        let (p, j, e) = (In-map (λ t. t.timestamp) x (keep (matches q) telegrams)).0 matched in
        let (k, m) = (In-keep (matches q) p telegrams).0 j in (p, k, m, e),
    λ h.
        let (p, k, m, e) = h in
        let j = (In-keep (matches q) p telegrams).1 (k, m) in
        (In-sort leb x _).1
          ((In-map (λ t. t.timestamp) x (keep (matches q) telegrams)).1 (p, j, e)),
  )

  HasWindow-HasPivot :
      (before after : Timedelta) (sorted : IsSorted leb pivots_of) (t : StoredTelegram)
      → milliseconds q.delta_before_ms ≡ ok before
      → milliseconds q.delta_after_ms ≡ ok after
      → HasWindow pivots_of before after sorted t ↔ HasPivot t
  HasWindow-HasPivot before after sorted t e f = (
    λ h.
        let (x, i, w) = h in
        let (p, k, m, same) = (pivots_of-In x).0 i in
        (
          p,
          k,
          m,
          (InWindow-WithinWindow q before after p t e f).0
              (subst (InWindow before after t) (sym same) w),
        ),
    λ h.
        let (p, k, m, w) = h in
        (
          p.timestamp,
          (pivots_of-In p.timestamp).1 (p, k, m, refl),
          (InWindow-WithinWindow q before after p t e f).1 w,
        ),
  )

-- With a context window, a query that does not raise selects exactly the telegrams of the store that
-- lie in the window of some telegram of the store that matches the filters, whether they match
-- themselves or not.
pub select-WithinWindow :
    (telegrams results : List StoredTelegram) (q : TelegramQuery) (t : StoredTelegram)
    → delta_active q ≡ true
    → select telegrams q ≡ ok results
    → In t results ↔ (In t telegrams × HasPivot q telegrams t)
unfolding select expand_context
select-WithinWindow telegrams results q t active h =
    let (filtered, filters, h1) = >>=-eq-ok (apply_filters q telegrams) _ h in
    let (expanded, e0, done) = >>=-eq-ok (expand_context telegrams q filtered) _ h1 in
    let kept = apply_filters-kept q telegrams filtered filters in
    let e = subst (λ ys. expand_context telegrams q ys ≡ ok expanded) kept e0 in
    let (before, f, e1) = >>=-eq-ok (milliseconds q.delta_before_ms) _ (rw active at e) in
    let (after, g, e2) = >>=-eq-ok (milliseconds q.delta_after_ms) _ e1 in
    let sorted = sort-IsSorted leb leb_total leb_trans (timestamps (keep (matches q) telegrams)) in
    let found =
      collect_context-In (pivots_of q telegrams) before after sorted telegrams expanded t e2 in
    let pivot = HasWindow-HasPivot q telegrams before after sorted t f g in
    subst (λ r. In t r ↔ (In t telegrams × HasPivot q telegrams t)) (ok-injective done)
      (
        λ i.
            let (k, w) = found.0 ((In-sort (in_order q.order_descending) t expanded).0 i) in
            (k, pivot.0 w),
        λ m. (In-sort (in_order q.order_descending) t expanded).1 (found.1 (m.0, pivot.1 m.1)),
      )
