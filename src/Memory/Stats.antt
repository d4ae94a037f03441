-- ===== src/Memory/Stats.antt =====
-- `get_stats`: the time span that it reports is that of the telegrams stored.
use knx_telegram_store.Prelude.{
  ◌≤◌, List, [], ◌∷◌, map, Option, none, some, arith, ◌≡◌, refl, ap, ◌⊎◌, inl, inr, In, In-map, min,
  max, length, leb, leb→le, leb→lt, Bool-cases,
}
use knx_telegram_store.Model.{Time, StoredTelegram}
use knx_telegram_store.Memory.{MemoryStore, min_of, max_of, oldest, newest, get_stats}

min_of-le : (m : Time) (xs : List Time) (x : Time) → (m ≡ x) ⊎ In x xs → min_of m xs ≤ x
min_of-le m [] x (inl e) = omega arith
min_of-le m [] x (inr i) = absurd i
min_of-le m (y ∷ ys) x (inl e) = omega (arith, min_of-le (min m y) ys (min m y) (inl refl))
min_of-le m (y ∷ ys) x (inr (inl e)) = omega (arith, min_of-le (min m y) ys (min m y) (inl refl))
min_of-le m (y ∷ ys) x (inr (inr i)) = min_of-le (min m y) ys x (inr i)

min_of-In : (m : Time) (xs : List Time) → (m ≡ min_of m xs) ⊎ In (min_of m xs) xs
min_of-In m [] = inl refl
min_of-In m (y ∷ ys) = elim (min_of-In (min m y) ys) [
  | inr i ↦ inr (inr i)
  | inl e ↦ elim (Bool-cases (leb m y)) [
    | inl small ↦ inl (omega (arith, leb→le m y small))
    | inr large ↦ inr (inl (omega (arith, leb→lt m y large)))
  ]
]

max_of-le : (m : Time) (xs : List Time) (x : Time) → (m ≡ x) ⊎ In x xs → x ≤ max_of m xs
max_of-le m [] x (inl e) = omega arith
max_of-le m [] x (inr i) = absurd i
max_of-le m (y ∷ ys) x (inl e) = omega (arith, max_of-le (max m y) ys (max m y) (inl refl))
max_of-le m (y ∷ ys) x (inr (inl e)) = omega (arith, max_of-le (max m y) ys (max m y) (inl refl))
max_of-le m (y ∷ ys) x (inr (inr i)) = max_of-le (max m y) ys x (inr i)

max_of-In : (m : Time) (xs : List Time) → (m ≡ max_of m xs) ⊎ In (max_of m xs) xs
max_of-In m [] = inl refl
max_of-In m (y ∷ ys) = elim (max_of-In (max m y) ys) [
  | inr i ↦ inr (inr i)
  | inl e ↦ elim (Bool-cases (leb m y)) [
    | inl small ↦ inr (inl (omega (arith, leb→le m y small)))
    | inr large ↦ inl (omega (arith, leb→lt m y large))
  ]
]

-- The time span of the telegrams: the least and the greatest of their timestamps.
pub record Spans (telegrams : List StoredTelegram) (low high : Time) : Type 0 where
  pub bounds : (t : StoredTelegram) → In t telegrams → (low ≤ t.timestamp) × (t.timestamp ≤ high)
  pub low_attained : (t : StoredTelegram) × In t telegrams × (t.timestamp ≡ low)
  pub high_attained : (t : StoredTelegram) × In t telegrams × (t.timestamp ≡ high)

-- What an oldest and a newest timestamp say of the telegrams.
abbrev pub Reports : List StoredTelegram → Option Time → Option Time → Type 0
Reports [] old new = (old ≡ none) × (new ≡ none)
Reports (t ∷ ts) old new =
    (low : Time) × (high : Time) × (old ≡ some low) × (new ≡ some high) × Spans (t ∷ ts) low high

abbrev pub timestamps : List StoredTelegram → List Time
timestamps = map (λ t. t.timestamp)

-- Membership among the timestamps, with the first one apart.
In-timestamps :
    (t u : StoredTelegram) (ts : List StoredTelegram)
    → In u (t ∷ ts)
    → (t.timestamp ≡ u.timestamp) ⊎ In u.timestamp (timestamps ts)
In-timestamps t u ts (inl e) = inl (ap (λ (x : StoredTelegram). x.timestamp) e)
In-timestamps t u ts (inr i) = inr ((In-map (λ x. x.timestamp) u.timestamp ts).1 (u, i, refl))

attained :
    (t : StoredTelegram) (ts : List StoredTelegram) (x : Time)
    → (t.timestamp ≡ x) ⊎ In x (timestamps ts)
    → (u : StoredTelegram) × In u (t ∷ ts) × (u.timestamp ≡ x)
attained t ts x (inl e) = (t, inl refl, e)
attained t ts x (inr i) = let (u, j, e) = (In-map (λ y. y.timestamp) x ts).0 i in (u, inr j, e)

pub oldest-newest-Reports :
    (ts : List StoredTelegram) → Reports ts (oldest (timestamps ts)) (newest (timestamps ts))
oldest-newest-Reports [] = (refl, refl)
oldest-newest-Reports (t ∷ ts) =
    let xs = timestamps ts in
    (
      min_of t.timestamp xs,
      max_of t.timestamp xs,
      refl,
      refl,
      record {
        bounds = λ u i. (
          min_of-le t.timestamp xs u.timestamp (In-timestamps t u ts i),
          max_of-le t.timestamp xs u.timestamp (In-timestamps t u ts i),
        );
        low_attained = attained t ts _ (min_of-In t.timestamp xs);
        high_attained = attained t ts _ (max_of-In t.timestamp xs);
      },
    )

-- The statistics count the stored telegrams; they report no timestamp if nothing is stored, and
-- otherwise the least and the greatest timestamp of the stored telegrams.
pub get_stats-Reports :
    (s : MemoryStore)
    → ((get_stats s).telegram_count ≡ length s.telegrams)
      × Reports s.telegrams (get_stats s).oldest_timestamp (get_stats s).newest_timestamp
unfolding get_stats
get_stats-Reports s = (refl, oldest-newest-Reports s.telegrams)
