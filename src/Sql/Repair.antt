-- ===== src/Sql/Repair.antt =====
-- What the pass over `last_ga_telegrams` leaves.
use knx_telegram_store.Prelude.{
  ℕ, ◌≤◌, max, Bool, true, List, [], ◌∷◌, Option, none, some, ltb, nat_eq, string_eq, option_eq,
  ◌==◌, ◌≡◌, refl, ap, sym, ◌∙◌, In, inl, inr, ◌⊎◌, Bool-cases, Option-cases, arith, option_beq_iff,
}
use knx_telegram_store.Prelude.Keep.{In-keep}
use knx_telegram_store.Model.{Time}
use knx_telegram_store.Sql.{Row}
use knx_telegram_store.Sql.Startup.{later_of, max_timestamp, candidates, rank_one, ranked}

-- A row of the list for the destination of `r` that is not older.
abbrev pub Covers : List Row → Row → Type 0
Covers rows r =
    (z : Row) × In z rows × (z.destination_id ≡ r.destination_id) × (r.timestamp ≤ z.timestamp)

same_destination_iff :
    (a b : Row)
    → (a.destination_id == b.destination_id) ≡ true
    → a.destination_id ≡ b.destination_id
same_destination_iff a b h = ground arith

max_timestamp-attained :
    (d : ℕ) (rows : List Row) (m : Time)
    → max_timestamp d rows ≡ some m
    → (x : Row) × In x rows × (x.destination_id ≡ d) × (x.timestamp ≡ m)
unfolding max_timestamp
max_timestamp-attained d [] m h = absurd (cc)
max_timestamp-attained d (r ∷ rs) m h = elim (Bool-cases (r.destination_id == d)) [
  | inr o ↦ let (x, i, e, f) = max_timestamp-attained d rs m (rw o at h) in (x, inr i, e, f)
  | inl s ↦
      let e : r.destination_id ≡ d = ground arith in
      let k : later_of r.timestamp (max_timestamp d rs) ≡ some m = rw s at h in
      elim (Option-cases (max_timestamp d rs)) [
        | inl none_there ↦
            let l : some r.timestamp ≡ some m = rw none_there at k in
            (r, inl refl, e, ground (arith, l))
        | inr (u, there) ↦
            let l : some (max r.timestamp u) ≡ some m = rw there at k in
            elim (Bool-cases (ltb r.timestamp u)) [
              | inl less ↦
                  let (x, i, a, b) = max_timestamp-attained d rs u there in
                  (x, inr i, a, ground (arith, l, b))
              | inr more ↦ (r, inl refl, e, ground (arith, l))
            ]
      ]
]

larger_of-bound :
    (t : Time) (o : Option Time) (m : Time)
    → (t ≡ m) ⊎ ((u : Time) × (o ≡ some u) × (m ≤ u))
    → (k : Time) × (later_of t o ≡ some k) × (m ≤ k)
larger_of-bound t none m (inl e) = (t, refl, omega (arith, e))
larger_of-bound t none m (inr (u, e, l)) = absurd (cc (e))
larger_of-bound t (some v) m (inl e) = (max t v, refl, omega (arith, e))
larger_of-bound t (some v) m (inr (u, e, l)) = (max t v, refl, ground (arith, e, l))

max_timestamp-bound :
    (d : ℕ) (rows : List Row) (r : Row)
    → In r rows
    → r.destination_id ≡ d
    → (m : Time) × (max_timestamp d rows ≡ some m) × (r.timestamp ≤ m)
unfolding max_timestamp
max_timestamp-bound d [] r i e = absurd i
max_timestamp-bound d (y ∷ ys) r (inl here) e =
    let same : (y.destination_id == d) ≡ true =
      ground (arith, ap (λ (x : Row). x.destination_id) here, e) in
    rw same (
      larger_of-bound y.timestamp (max_timestamp d ys) r.timestamp
        (inl (ap (λ (x : Row). x.timestamp) here)))
max_timestamp-bound d (y ∷ ys) r (inr later) e =
    let (u, there, l) = max_timestamp-bound d ys r later e in
    elim (Bool-cases (y.destination_id == d)) [
      | inl s ↦
          rw s (larger_of-bound y.timestamp (max_timestamp d ys) r.timestamp (inr (u, there, l)))
      | inr o ↦ rw o (u, there, l)
    ]

-- The latest row of each destination is a candidate, and no row is later than a candidate of its
-- destination.
pub candidates-Covers : (rows : List Row) (r : Row) → In r rows → Covers (candidates rows) r
unfolding candidates
candidates-Covers rows r i =
    let (m, e, l) = max_timestamp-bound r.destination_id rows r i refl in
    let (x, j, same, f) = max_timestamp-attained r.destination_id rows m e in
    let passes : (max_timestamp x.destination_id rows == some x.timestamp) ≡ true =
      (option_beq_iff nat_eq _ _).1 (ap (λ d. max_timestamp d rows) same ∙ e ∙ ap some (sym f)) in
    (
      x,
      (In-keep (λ y. max_timestamp y.destination_id rows == some y.timestamp) x rows).1 (j, passes),
      same,
      omega (arith, l, f),
    )

pub candidates-latest :
    (rows : List Row) (x r : Row)
    → In x (candidates rows)
    → In r rows
    → r.destination_id ≡ x.destination_id
    → r.timestamp ≤ x.timestamp
unfolding candidates
candidates-latest rows x r i j same =
    let (k, passes) =
      (In-keep (λ y. max_timestamp y.destination_id rows == some y.timestamp) x rows).0 i in
    let e : max_timestamp x.destination_id rows ≡ some x.timestamp =
      (option_beq_iff nat_eq _ _).0 passes in
    let (m, f, l) = max_timestamp-bound x.destination_id rows r j same in
    let g : some m ≡ some x.timestamp = sym f ∙ e in ground (arith, g, l)

-- Some row of a destination.
abbrev pub Serves : List Row → ℕ → Type 0
Serves rows d = (z : Row) × In z rows × (z.destination_id ≡ d)

module _ (before : Row → Row → Bool) where
  rank_one-In : (z x : Row) (ys : List Row) → In z (rank_one before x ys) → (x ≡ z) ⊎ In z ys
  unfolding rank_one
  rank_one-In z x [] (inl e) = inl e
  rank_one-In z x [] (inr m) = absurd m
  rank_one-In z x (y ∷ ys) m = elim (Bool-cases (y.destination_id == x.destination_id)) [
    | inl s ↦ elim (Bool-cases (before x y)) [
      | inl b ↦
          let k : In z (x ∷ ys) = rw (s, b) at m in elim k [ inl e ↦ inl e | inr i ↦ inr (inr i) ]
      | inr b ↦ let k : In z (y ∷ ys) = rw (s, b) at m in inr k
    ]
    | inr o ↦
        let k : In z (y ∷ rank_one before x ys) = rw o at m in
        elim k [
          | inl e ↦ inr (inl e)
          | inr i ↦ elim (rank_one-In z x ys i) [ inl e ↦ inl e | inr j ↦ inr (inr j) ]
        ]
  ]

  rank_one-Serves :
      (x : Row) (ys : List Row) (d : ℕ)
      → (x.destination_id ≡ d) ⊎ Serves ys d
      → Serves (rank_one before x ys) d
  unfolding rank_one
  rank_one-Serves x [] d (inl e) = (x, inl refl, e)
  rank_one-Serves x [] d (inr (z, i, e)) = absurd i
  rank_one-Serves x (y ∷ ys) d h = elim (Bool-cases (y.destination_id == x.destination_id)) [
    | inl s ↦
        let same : y.destination_id ≡ x.destination_id = ground arith in
        elim (Bool-cases (before x y)) [
          | inl b ↦
              rw (s, b)
                (elim h [
                  | inl e ↦ (x, inl refl, e)
                  | inr (z, inl here, e) ↦
                      (x, inl refl, sym same ∙ ap (λ (r : Row). r.destination_id) here ∙ e)
                  | inr (z, inr i, e) ↦ (z, inr i, e)
                ])
          | inr b ↦ rw (s, b) (elim h [ inl e ↦ (y, inl refl, same ∙ e) | inr k ↦ k ])
        ]
    | inr o ↦ rw o (elim h [
      | inl e ↦ let (z, i, f) = rank_one-Serves x ys d (inl e) in (z, inr i, f)
      | inr (z, inl here, e) ↦ (z, inl here, e)
      | inr (z, inr i, e) ↦ let (w, j, f) = rank_one-Serves x ys d (inr (z, i, e)) in (w, inr j, f)
    ])
  ]

  pub ranked-In : (z : Row) (ys xs : List Row) → In z (ranked before ys xs) → In z ys ⊎ In z xs
  unfolding ranked
  ranked-In z ys [] m = inl m
  ranked-In z ys (x ∷ xs) m = elim (ranked-In z (rank_one before x ys) xs m) [
    | inr j ↦ inr (inr j)
    | inl i ↦ elim (rank_one-In z x ys i) [ inl e ↦ inr (inl e) | inr j ↦ inl j ]
  ]

  pub ranked-Serves :
      (ys xs : List Row) (d : ℕ) → Serves ys d ⊎ Serves xs d → Serves (ranked before ys xs) d
  unfolding ranked
  ranked-Serves ys [] d (inl h) = h
  ranked-Serves ys [] d (inr (z, i, e)) = absurd i
  ranked-Serves ys (x ∷ xs) d (inl h) =
      ranked-Serves (rank_one before x ys) xs d (inl (rank_one-Serves x ys d (inr h)))
  ranked-Serves ys (x ∷ xs) d (inr (z, inl here, e)) =
      ranked-Serves (rank_one before x ys) xs d
        (inl (rank_one-Serves x ys d (inl (ap (λ (r : Row). r.destination_id) here ∙ e))))
  ranked-Serves ys (x ∷ xs) d (inr (z, inr i, e)) =
      ranked-Serves (rank_one before x ys) xs d (inr (z, i, e))
