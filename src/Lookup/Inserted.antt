-- ===== src/Lookup/Inserted.antt =====
-- What the insertions of `get_or_create_ids` make of the table.
use mathlib.Core.Path.{subst}
use knx_telegram_store.Prelude.{
  ℕ, suc, ◌<◌, List, [], ◌∷◌, ◌++◌, Option, none, some, ◌≡◌, refl, ap, sym, ◌∙◌, arith, ◌⊎◌, inl,
  inr, Bool-cases, Option-cases, In, In-append,
}
use knx_telegram_store.Lookup.{
  Dialect, postgresql, sqlite, other_dialect, LookupTable, skip, insert_unless, insert_row,
  insert_all,
}
use knx_telegram_store.Lookup.Pairs.{
  Pair, same_pair, same_pair_iff, same_pair_refl, Ids, find_id, find-head, find-tail,
  find-append_found, find-append_new, find-nothing,
}

-- Every id of the one is the id of the other.
abbrev pub Agrees : Ids → Ids → Type 0
Agrees ids rows = (p : Pair) (i : ℕ) → find_id p ids ≡ some i → find_id p rows ≡ some i

-- A table as the database keeps it: a pair has one row, and no two pairs have one id.
pub record IsKeyed (t : LookupTable) : Type 0 where
  pub one_row : (p : Pair) (i : ℕ) → In (p, i) t.rows → find_id p t.rows ≡ some i
  pub used : (p : Pair) (i : ℕ) → find_id p t.rows ≡ some i → i < t.next_id
  pub one_pair :
      (p q : Pair) (i : ℕ) → find_id p t.rows ≡ some i → find_id q t.rows ≡ some i → p ≡ q

abbrev pub IsFound : Pair → Ids → Type 0
IsFound p ids = (i : ℕ) × (find_id p ids ≡ some i)

pub some-same : {i j : ℕ} {o : Option ℕ} → o ≡ some i → o ≡ some j → i ≡ j
some-same h k = cc

module _ (t : LookupTable) (p : Pair) (missing : find_id p t.rows ≡ none) (keyed : IsKeyed t) where
  abbrev inserted : LookupTable
  inserted = record { rows = t.rows ++ (p, t.next_id) ∷ []; next_id = suc t.next_id }

  -- A row of the table with the new one.
  find-inserted :
      (q : Pair) (i : ℕ)
      → find_id q inserted.rows ≡ some i
      → (find_id q t.rows ≡ some i) ⊎ ((p ≡ q) × (i ≡ t.next_id))
  find-inserted q i h = elim (Option-cases (find_id q t.rows)) [
    | inr (j, e) ↦ inl (e ∙ sym (find-append_found q j t.rows _ e) ∙ h)
    | inl e ↦
        let last = sym (find-append_new q t.rows ((p, t.next_id) ∷ []) e) ∙ h in
        elim (Bool-cases (same_pair p q)) [
          | inl s ↦ inr ((same_pair_iff p q).0 s, some-same last (find-head p q t.next_id [] s))
          | inr o ↦ absurd (cc (find-tail p q t.next_id [] o, find-nothing q, last))
        ]
  ]

  inserted-IsKeyed : IsKeyed inserted
  inserted-IsKeyed = record {
    one_row = λ q i m. elim ((In-append (q, i) t.rows ((p, t.next_id) ∷ [])).0 m) [
      | inl old ↦ find-append_found q i t.rows _ (keyed.one_row q i old)
      | inr (inl same) ↦
          subst (λ (r : Pair × ℕ). find_id r.0 inserted.rows ≡ some r.1) same
            (find-append_new p t.rows ((p, t.next_id) ∷ []) missing
              ∙ find-head p p t.next_id [] (same_pair_refl p))
      | inr (inr nowhere) ↦ absurd nowhere
    ];
    used = λ q i h. elim (find-inserted q i h) [
      | inl old ↦ omega (arith, keyed.used q i old)
      | inr (same, e) ↦ omega (arith, e)
    ];
    one_pair = λ q r i h k. elim (find-inserted q i h) [
      | inl old ↦ elim (find-inserted r i k) [
        | inl old' ↦ keyed.one_pair q r i old old'
        | inr (same, e) ↦ absurd (omega (arith, keyed.used q i old, e))
      ]
      | inr (same, e) ↦ elim (find-inserted r i k) [
        | inl old' ↦ absurd (omega (arith, keyed.used r i old', e))
        | inr (same', e') ↦ sym same ∙ same'
      ]
    ];
  }

skip-rows : (d : Dialect) (t : LookupTable) → (skip d t).rows ≡ t.rows
skip-rows postgresql t = refl
skip-rows sqlite t = refl
skip-rows other_dialect t = refl

skip-IsKeyed : (d : Dialect) (t : LookupTable) → IsKeyed t → IsKeyed (skip d t)
skip-IsKeyed postgresql t k = record {
  one_row = k.one_row;
  used = λ p i h. omega (arith, k.used p i h);
  one_pair = k.one_pair;
}
skip-IsKeyed sqlite t k = k
skip-IsKeyed other_dialect t k = k

-- What an insertion makes of a table.
pub record Extends (t u : LookupTable) : Type 0 where
  pub keyed : IsKeyed u
  pub kept : Agrees t.rows u.rows

Extends-trans : {t u v : LookupTable} → Extends t u → Extends u v → Extends t v
Extends-trans g h = record { keyed = h.keyed; kept = λ p i e. h.kept p i (g.kept p i e) }

insert_row-Extends :
    (d : Dialect) (t : LookupTable) (p : Pair)
    → IsKeyed t
    → Extends t (insert_row d t p) × IsFound p (insert_row d t p).rows
unfolding insert_row
insert_row-Extends d t p k = go (find_id p t.rows) refl
  where
    go :
        (o : Option ℕ)
        → find_id p t.rows ≡ o
        → Extends t (insert_unless o d t p) × IsFound p (insert_unless o d t p).rows
    go (some i) e = (
      record { keyed = skip-IsKeyed d t k; kept = λ q j h. ap (find_id q) (skip-rows d t) ∙ h },
      (i, ap (find_id p) (skip-rows d t) ∙ e),
    )
    go none e = (
      record { keyed = inserted-IsKeyed t p e k; kept = λ q j h. find-append_found q j t.rows _ h },
      (t.next_id, find-append_new p t.rows _ e ∙ find-head p p t.next_id [] (same_pair_refl p)),
    )

pub insert_all-Extends :
    (d : Dialect) (t : LookupTable) (ps : List Pair)
    → IsKeyed t
    → Extends t (insert_all d t ps) × ((p : Pair) → In p ps → IsFound p (insert_all d t ps).rows)
unfolding insert_all
insert_all-Extends d t [] k = (record { keyed = k; kept = λ p i e. e }, λ p m. absurd m)
insert_all-Extends d t (q ∷ ps) k =
    let (one, (i, found)) = insert_row-Extends d t q k in
    let (more, rest) = insert_all-Extends d (insert_row d t q) ps one.keyed in
    (
      Extends-trans one more,
      λ p. elim [
        | inl same ↦
            subst (λ x. IsFound x (insert_all d (insert_row d t q) ps).rows) same
              (i, more.kept q i found)
        | inr later ↦ rest p later
      ],
    )
