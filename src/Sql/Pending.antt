-- ===== src/Sql/Pending.antt =====
-- `needs_migration` against what `initialize` does.
use mathlib.Core.Path.{subst}
use knx_telegram_store.Prelude.{
  Bool, true, false, not, ◌&&◌, ◌||◌, String, List, [], ◌∷◌, some, is_nonempty, if◌then◌else◌,
  nat_eq, string_eq, option_eq, ◌==◌, ◌≡◌, refl, ap, sym, ◌∙◌, In, inl, inr, Bool-cases, arith,
  if_true, if_false, if_ind,
}
use knx_telegram_store.Prelude.Keep.{keep}
use knx_telegram_store.Sql.{Row, Database}
use knx_telegram_store.Sql.Startup.{
  metadata_flag_set, last_ga_reconciled_key, Catalogue, indexed_tables, any_lacks, ensure_indexes,
  pending_startup_work, repaired, reconcile, insert_missing, ranked, candidates, has_newer,
}
use knx_telegram_store.Sql.Reconciled.{
  OncePerDestination, Repairs, repaired-Repairs, repaired-Serves,
}
use knx_telegram_store.Sql.Metadata.{metadata_value-upsert}
use knx_telegram_store.Sql.Indexes.{KeepsDeclared, ensure_indexes-lacks}

module _ (before : Row → Row → Bool) (db : Database) where
  -- The pass has run before and left summaries.
  abbrev is_settled : Bool
  is_settled =
      is_nonempty db.last_ga_telegrams && metadata_flag_set last_ga_reconciled_key db.store_metadata

  reconcile-flag :
      is_settled ≡ false
      → metadata_flag_set last_ga_reconciled_key (reconcile before db).store_metadata ≡ true
  unfolding reconcile
  reconcile-flag h =
      rw h (elim (Bool-cases (metadata_flag_set last_ga_reconciled_key db.store_metadata)) [
        | inl s ↦ rw s s
        | inr o ↦ rw o (
            ap (λ v. v == some "true")
              (metadata_value-upsert last_ga_reconciled_key "true" db.store_metadata))
      ])

  reconcile-rows :
      is_settled ≡ false
      → ((reconcile before db).telegrams ≡ db.telegrams)
        × ((reconcile before db).last_ga_telegrams
            ≡ repaired before db.telegrams db.last_ga_telegrams)
  unfolding reconcile
  reconcile-rows h = (rw h refl, rw h refl)

-- Unless it finds its flag and summaries, the startup pass leaves one summary for each destination of
-- a stored telegram, taken from the summaries or the telegrams, and no stored telegram of the
-- destination is later. The condition is that the summaries had one row for a destination.
pub reconcile-Repairs :
    (before : Row → Row → Bool) (db : Database)
    → OncePerDestination db.last_ga_telegrams
    → (is_nonempty db.last_ga_telegrams
        && metadata_flag_set last_ga_reconciled_key db.store_metadata)
      ≡ false
    → Repairs db.telegrams db.last_ga_telegrams (reconcile before db).last_ga_telegrams
reconcile-Repairs before db once due =
    subst (Repairs db.telegrams db.last_ga_telegrams) (sym (reconcile-rows before db due).1)
      (repaired-Repairs before db.telegrams db.last_ga_telegrams once)

-- The last test of the probe, behind the tests of the table and of the indexes.
abbrev rows_pending : Bool → Bool → List Row → Bool
rows_pending flag summaries telegrams =
    if not flag || not summaries then is_nonempty telegrams else false

probe-rows :
    (declared : String → List String) (c : Catalogue) (db : Database)
    → c.has_table "telegrams" ≡ true
    → any_lacks declared c indexed_tables ≡ false
    → pending_startup_work declared c db
      ≡ rows_pending
          (metadata_flag_set last_ga_reconciled_key db.store_metadata)
          (is_nonempty db.last_ga_telegrams)
          db.telegrams
unfolding pending_startup_work
probe-rows declared c db h k = rw (h, k) refl

probe-lacks :
    (declared : String → List String) (c : Catalogue) (db : Database)
    → c.has_table "telegrams" ≡ true
    → any_lacks declared c indexed_tables ≡ true
    → pending_startup_work declared c db ≡ true
unfolding pending_startup_work
probe-lacks declared c db h k = rw (h, k) refl

rows-due :
    (flag summaries : Bool) (telegrams : List Row)
    → (summaries && flag) ≡ false
    → rows_pending flag summaries telegrams ≡ false
    → is_nonempty telegrams ≡ false
rows-due true true telegrams h k = absurd (cc (h))
rows-due true false telegrams h k = k
rows-due false true telegrams h k = k
rows-due false false telegrams h k = k

module _ (before : Row → Row → Bool) (db : Database) where
  Serves-nonempty :
      (r : Row)
      → In r db.telegrams
      → is_nonempty (repaired before db.telegrams db.last_ga_telegrams) ≡ true
  Serves-nonempty r i =
      elim (Bool-cases (is_nonempty (repaired before db.telegrams db.last_ga_telegrams))) [
        | inl s ↦ s
        | inr o ↦ absurd (
            has_none (repaired before db.telegrams db.last_ga_telegrams)
              (repaired-Serves before db.telegrams db.last_ga_telegrams r i) o)
      ]
    where
      has_none :
          (rows : List Row)
          → (z : Row) × In z rows × (z.destination_id ≡ r.destination_id)
          → is_nonempty rows ≡ false
          → ⊥
      has_none [] (z, j, e) o = j
      has_none (x ∷ xs) (z, j, e) o = absurd (cc (o))

  rows_settled :
      (rows : List Row)
      → ((r : Row) → In r rows → is_nonempty (reconcile before db).last_ga_telegrams ≡ true)
      → rows_pending true (is_nonempty (reconcile before db).last_ga_telegrams) rows ≡ false
  rows_settled [] h =
      if_ind (λ b. b ≡ false) (not (is_nonempty (reconcile before db).last_ga_telegrams))
        (λ _. refl) (λ _. refl)
  rows_settled (r ∷ rows) h =
      if_false (not (is_nonempty (reconcile before db).last_ga_telegrams)) true false
        (ap not (h r (inl refl)))

  settled-rows : is_settled before db ≡ true → reconcile before db ≡ db
  unfolding reconcile
  settled-rows h = if_true (is_settled before db) db _ h

  nothing-pending :
      rows_pending
        (metadata_flag_set last_ga_reconciled_key (reconcile before db).store_metadata)
        (is_nonempty (reconcile before db).last_ga_telegrams)
        (reconcile before db).telegrams
      ≡ false
  nothing-pending = elim (Bool-cases (is_settled before db)) [
    | inl s ↦
        subst
          (λ (d : Database).
            rows_pending (metadata_flag_set last_ga_reconciled_key d.store_metadata)
              (is_nonempty d.last_ga_telegrams) d.telegrams
            ≡ false)
          (sym (settled-rows s)) (settled_pending s)
    | inr due ↦
        let rows = reconcile-rows before db due in
        subst
          (λ b.
            rows_pending b (is_nonempty (reconcile before db).last_ga_telegrams)
              (reconcile before db).telegrams
            ≡ false)
          (sym (reconcile-flag before db due))
          (rows_settled (reconcile before db).telegrams
            (λ r i. ap is_nonempty rows.1 ∙ Serves-nonempty r (subst (In r) rows.0 i)))
  ]
    where
      settled_pending :
          is_settled before db ≡ true
          → rows_pending
              (metadata_flag_set last_ga_reconciled_key db.store_metadata)
              (is_nonempty db.last_ga_telegrams)
              db.telegrams
            ≡ false
      settled_pending s = ground arith

-- When the missing indexes are created and the obsolete ones dropped, and the startup pass has run, the
-- probe finds nothing pending, whatever the database held. The condition is that no declared index is
-- an obsolete one.
pub pending_startup_work-reconcile :
    (before : Row → Row → Bool) (declared : String → List String) (c : Catalogue) (db : Database)
    → ((t : String) → KeepsDeclared (declared t))
    → pending_startup_work declared (ensure_indexes declared c) (reconcile before db) ≡ false
unfolding pending_startup_work
pending_startup_work-reconcile before declared c db kept =
    if_ind (λ b. b ≡ false) (not ((ensure_indexes declared c).has_table "telegrams")) (λ _. refl)
      (λ _.
        if_false (any_lacks declared (ensure_indexes declared c) indexed_tables) true _
          (ensure_indexes-lacks declared c indexed_tables kept)
        ∙ nothing-pending before db)

repaired-nothing :
    (before : Row → Row → Bool) (summaries : List Row) → repaired before [] summaries ≡ summaries
unfolding repaired insert_missing ranked candidates
repaired-nothing before [] = refl
repaired-nothing before (s ∷ ss) = ap (◌∷◌ s) (all_kept ss)
  where
    all_kept : (rows : List Row) → keep (λ r. not (has_newer [] r)) rows ≡ rows
    all_kept [] = refl
    all_kept (r ∷ rows) = ap (◌∷◌ r) (all_kept rows)

-- Where the probe finds nothing pending on a database with the table of telegrams, the startup pass
-- changes neither the telegrams nor the summaries.
pub reconcile-pending :
    (before : Row → Row → Bool) (declared : String → List String) (c : Catalogue) (db : Database)
    → c.has_table "telegrams" ≡ true
    → pending_startup_work declared c db ≡ false
    → ((reconcile before db).telegrams ≡ db.telegrams)
      × ((reconcile before db).last_ga_telegrams ≡ db.last_ga_telegrams)
reconcile-pending before declared c db there idle = elim (Bool-cases (is_settled before db)) [
  | inl s ↦ (
    ap (λ (d : Database). d.telegrams) (settled-rows before db s),
    ap (λ (d : Database). d.last_ga_telegrams) (settled-rows before db s),
  )
  | inr due ↦
      let rows = reconcile-rows before db due in
      (rows.0, rows.1 ∙ unchanged db.telegrams (empty_of due))
]
  where
    unchanged :
        (ts : List Row)
        → is_nonempty ts ≡ false
        → repaired before ts db.last_ga_telegrams ≡ db.last_ga_telegrams
    unchanged [] h = repaired-nothing before db.last_ga_telegrams
    unchanged (t ∷ ts) h = absurd (cc (h))

    empty_of : is_settled before db ≡ false → is_nonempty db.telegrams ≡ false
    empty_of due = elim (Bool-cases (any_lacks declared c indexed_tables)) [
      | inl s ↦ absurd (cc (probe-lacks declared c db there s, idle))
      | inr o ↦
          rows-due (metadata_flag_set last_ga_reconciled_key db.store_metadata)
            (is_nonempty db.last_ga_telegrams) db.telegrams due
            (sym (probe-rows declared c db there o) ∙ idle)
    ]
