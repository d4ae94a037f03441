-- ===== src/Sql/Reconciled.antt =====
-- The summaries after the startup pass, and what is still pending then.
use knx_telegram_store.Prelude.{
  ℕ, ◌≤◌, Bool, true, false, not, List, [], ◌∷◌, ◌++◌, is_nonempty, if◌then◌else◌, nat_eq,
  string_eq, option_eq, ◌==◌, ◌≡◌, ◌≢◌, refl, ap, sym, ◌∙◌, In, In-append, inl, inr, ◌⊎◌,
  Bool-cases, arith,
}
use knx_telegram_store.Prelude.Keep.{keep, In-keep}
use knx_telegram_store.Prelude.Newest.{OncePerKey}
use knx_telegram_store.Sql.{Row}
use knx_telegram_store.Sql.Startup.{
  has_newer, candidates, ranked, has_destination, insert_missing, repaired,
}
use knx_telegram_store.Sql.Repair.{
  Covers, Serves, candidates-Covers, candidates-latest, ranked-In, ranked-Serves,
}

has_destination-Serves : (rows : List Row) (d : ℕ) → has_destination rows d ≡ true → Serves rows d
has_destination-Serves [] d h = absurd (cc)
has_destination-Serves (r ∷ rs) d h = elim (Bool-cases (r.destination_id == d)) [
  | inl s ↦ (r, inl refl, ground arith)
  | inr o ↦ let (z, i, e) = has_destination-Serves rs d (rw o at h) in (z, inr i, e)
]

insert_missing-In :
    (z : Row) (rows xs : List Row) → In z (insert_missing rows xs) → In z rows ⊎ In z xs
unfolding insert_missing
insert_missing-In z rows [] m = inl m
insert_missing-In z rows (x ∷ xs) m = elim (Bool-cases (has_destination rows x.destination_id)) [
  | inl s ↦ elim (insert_missing-In z rows xs (rw s at m)) [ inl i ↦ inl i | inr i ↦ inr (inr i) ]
  | inr o ↦ elim (insert_missing-In z (rows ++ x ∷ []) xs (rw o at m)) [
    | inr i ↦ inr (inr i)
    | inl i ↦ elim ((In-append z rows (x ∷ [])).0 i) [
      | inl j ↦ inl j
      | inr (inl e) ↦ inr (inl e)
      | inr (inr nowhere) ↦ absurd nowhere
    ]
  ]
]

Serves-append : (rows xs : List Row) (d : ℕ) → Serves rows d ⊎ Serves xs d → Serves (rows ++ xs) d
Serves-append rows xs d (inl (z, i, e)) = (z, (In-append z rows xs).1 (inl i), e)
Serves-append rows xs d (inr (z, i, e)) = (z, (In-append z rows xs).1 (inr i), e)

insert_missing-Serves :
    (rows xs : List Row) (d : ℕ) → Serves rows d ⊎ Serves xs d → Serves (insert_missing rows xs) d
unfolding insert_missing
insert_missing-Serves rows [] d (inl h) = h
insert_missing-Serves rows [] d (inr (z, i, e)) = absurd i
insert_missing-Serves rows (x ∷ xs) d h =
    elim (Bool-cases (has_destination rows x.destination_id)) [
      | inl s ↦ rw s (
          insert_missing-Serves rows xs d (elim h [
            | inl k ↦ inl k
            | inr (z, inl here, e) ↦
                let (w, j, f) = has_destination-Serves rows x.destination_id s in
                inl (w, j, f ∙ ap (λ (r : Row). r.destination_id) here ∙ e)
            | inr (z, inr i, e) ↦ inr (z, i, e)
          ]))
      | inr o ↦ rw o (
          insert_missing-Serves (rows ++ x ∷ []) xs d (elim h [
            | inl k ↦ inl (Serves-append rows (x ∷ []) d (inl k))
            | inr (z, inl here, e) ↦ inl (Serves-append rows (x ∷ []) d (inr (z, inl here, e)))
            | inr (z, inr i, e) ↦ inr (z, i, e)
          ]))
    ]

-- `destination_id` is the primary key.
abbrev pub OncePerDestination : List Row → Type 0
OncePerDestination = OncePerKey (λ (r : Row). r.destination_id) (λ (r : Row). r.timestamp)

has_destination-not :
    (rows : List Row) (d : ℕ) (z : Row)
    → has_destination rows d ≡ false
    → In z rows
    → z.destination_id ≢ d
has_destination-not [] d z h i = absurd i
has_destination-not (r ∷ rs) d z h (inl here) =
    λ e. absurd (ground (arith, h, ap (λ (x : Row). x.destination_id) here, e))
has_destination-not (r ∷ rs) d z h (inr i) = has_destination-not rs d z (ground (arith, h)) i

OncePerDestination-append :
    (rows : List Row) (x : Row)
    → OncePerDestination rows
    → ((z : Row) → In z rows → z.destination_id ≢ x.destination_id)
    → OncePerDestination (rows ++ x ∷ [])
OncePerDestination-append [] x h k = (λ u i. absurd i, tt)
OncePerDestination-append (r ∷ rs) x h k = (
  λ u i. elim ((In-append u rs (x ∷ [])).0 i) [
    | inl j ↦ h.0 u j
    | inr (inl e) ↦ λ same. k r (inl refl) (sym same ∙ ap (λ (y : Row). y.destination_id) (sym e))
    | inr (inr nowhere) ↦ absurd nowhere
  ],
  OncePerDestination-append rs x h.1 (λ z i. k z (inr i)),
)

insert_missing-Once :
    (rows xs : List Row) → OncePerDestination rows → OncePerDestination (insert_missing rows xs)
unfolding insert_missing
insert_missing-Once rows [] h = h
insert_missing-Once rows (x ∷ xs) h = elim (Bool-cases (has_destination rows x.destination_id)) [
  | inl s ↦ rw s (insert_missing-Once rows xs h)
  | inr o ↦ rw o (
      insert_missing-Once (rows ++ x ∷ []) xs (
        OncePerDestination-append rows x h
          (λ z i. has_destination-not rows x.destination_id z o i)))
]

keep-Once :
    (p : Row → Bool) (rows : List Row) → OncePerDestination rows → OncePerDestination (keep p rows)
keep-Once p [] h = tt
keep-Once p (r ∷ rs) h = elim (Bool-cases (p r)) [
  | inl e ↦ rw e (λ u i. h.0 u ((In-keep p u rs).0 i).0, keep-Once p rs h.1)
  | inr e ↦ rw e (keep-Once p rs h.1)
]

has_newer-not :
    (telegrams : List Row) (z r : Row)
    → has_newer telegrams z ≡ false
    → In r telegrams
    → r.destination_id ≡ z.destination_id
    → r.timestamp ≤ z.timestamp
has_newer-not [] z r h i e = absurd i
has_newer-not (t ∷ ts) z r h (inl here) e =
    ground
      (arith, h, e, ap (λ (x : Row). x.destination_id) here, ap (λ (x : Row). x.timestamp) here)
has_newer-not (t ∷ ts) z r h (inr i) e = has_newer-not ts z r (ground (arith, h)) i e

-- The summaries that the pass starts from.
abbrev remaining : List Row → List Row → List Row
remaining telegrams summaries =
    if is_nonempty summaries then keep (λ r. not (has_newer telegrams r)) summaries else summaries

remaining-In :
    (telegrams summaries : List Row) (z : Row)
    → In z (remaining telegrams summaries)
    → In z summaries × (has_newer telegrams z ≡ false)
remaining-In telegrams [] z i = absurd i
remaining-In telegrams (s ∷ ss) z i =
    let (j, passes) = (In-keep (λ r. not (has_newer telegrams r)) z (s ∷ ss)).0 i in
    (j, ground (arith, passes))

remaining-Once :
    (telegrams summaries : List Row)
    → OncePerDestination summaries
    → OncePerDestination (remaining telegrams summaries)
remaining-Once telegrams [] h = h
remaining-Once telegrams (s ∷ ss) h = keep-Once (λ r. not (has_newer telegrams r)) (s ∷ ss) h

-- What the pass makes of the summaries.
pub record Repairs (telegrams summaries rows : List Row) : Type 0 where
  pub covers : (r : Row) → In r telegrams → Covers rows r
  pub known : (z : Row) → In z rows → In z summaries ⊎ In z telegrams
  pub latest :
      (z r : Row)
      → In z rows
      → In r telegrams
      → r.destination_id ≡ z.destination_id
      → r.timestamp ≤ z.timestamp
  pub once : OncePerDestination rows

module _ (before : Row → Row → Bool) (telegrams summaries : List Row) where
  repaired-In :
      (z : Row)
      → In z (repaired before telegrams summaries)
      → (In z summaries × (has_newer telegrams z ≡ false)) ⊎ In z (candidates telegrams)
  unfolding repaired
  repaired-In z i =
      elim (insert_missing-In z (remaining telegrams summaries)
        (ranked before [] (candidates telegrams)) i) [
          | inl old ↦ inl (remaining-In telegrams summaries z old)
          | inr new ↦ elim (ranked-In before z [] (candidates telegrams) new) [
            | inl j ↦ absurd j
            | inr j ↦ inr j
          ]
        ]

  repaired-latest :
      (z r : Row)
      → In z (repaired before telegrams summaries)
      → In r telegrams
      → r.destination_id ≡ z.destination_id
      → r.timestamp ≤ z.timestamp
  repaired-latest z r i j same = elim (repaired-In z i) [
    | inl old ↦ has_newer-not telegrams z r old.1 j same
    | inr new ↦ candidates-latest telegrams z r new j same
  ]

  pub repaired-Serves :
      (r : Row) → In r telegrams → Serves (repaired before telegrams summaries) r.destination_id
  unfolding repaired
  repaired-Serves r i =
      let (x, j, same, l) = candidates-Covers telegrams r i in
      insert_missing-Serves (remaining telegrams summaries)
        (ranked before [] (candidates telegrams)) r.destination_id
        (inr (ranked-Serves before [] (candidates telegrams) r.destination_id (inr (x, j, same))))

  pub repaired-Repairs :
      OncePerDestination summaries
      → Repairs telegrams summaries (repaired before telegrams summaries)
  unfolding repaired candidates
  repaired-Repairs h = record {
    covers = λ r i.
        let (z, j, same) = repaired-Serves r i in (z, j, same, repaired-latest z r j i (sym same));
    known = λ z i. elim (repaired-In z i) [
      | inl old ↦ inl old.0
      | inr new ↦ inr ((In-keep _ z telegrams).0 new).0
    ];
    latest = repaired-latest;
    once =
        insert_missing-Once (remaining telegrams summaries)
          (ranked before [] (candidates telegrams)) (remaining-Once telegrams summaries h);
  }
