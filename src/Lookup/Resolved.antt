-- ===== src/Lookup/Resolved.antt =====
-- What `get_or_create_ids` resolves, against the rows of the table.
use mathlib.Core.Path.{subst}
use knx_telegram_store.Prelude.{
  ℕ, true, List, [], ◌∷◌, Option, none, some, ◌≡◌, refl, ap, sym, ◌∙◌, ◌⊎◌, inl, inr, Bool-cases,
  In, In-append,
}
use knx_telegram_store.Prelude.Keep.{keep, In-keep}
use knx_telegram_store.Lookup.{
  Dialect, LookupTable, LookupCache, insert_all, place, split, listed, create, get_or_create_ids,
  publish,
}
use knx_telegram_store.Lookup.Pairs.{
  Pair, same_pair, same_pair_iff, Ids, find_id, put_id, update, find-put_same, find-put_other,
  find-nothing, find-head, find-tail,
}
use knx_telegram_store.Lookup.Inserted.{
  Agrees, IsKeyed, IsFound, Extends, insert_all-Extends, some-same,
}

-- Every entry is the row of its pair in the table.
abbrev pub Entries : Ids → Ids → Type 0
Entries ids rows = (p : Pair) (i : ℕ) → In (p, i) ids → find_id p rows ≡ some i

pub find-In : (p : Pair) (i : ℕ) (rows : Ids) → find_id p rows ≡ some i → In (p, i) rows
find-In p i [] h = absurd (cc (find-nothing p, h))
find-In p i ((q, j) ∷ rows) h = elim (Bool-cases (same_pair q p)) [
  | inl s ↦
      let k : j ≡ i = some-same (find-head q p j rows s) h in inl (cc ((same_pair_iff q p).0 s, k))
  | inr o ↦ inr (find-In p i rows (sym (find-tail q p j rows o) ∙ h))
]

In-put :
    (d : Ids) (p q : Pair) (i j : ℕ)
    → In (q, j) (put_id p i d)
    → ◌≡◌ {A = Pair × ℕ} (p, i) (q, j) ⊎ In (q, j) d
unfolding put_id
In-put [] p q i j (inl e) = inl e
In-put [] p q i j (inr m) = absurd m
In-put ((r, k) ∷ d) p q i j m = elim (Bool-cases (same_pair r p)) [
  | inl s ↦
      let entry : ◌≡◌ {A = Pair × ℕ} (r, i) (q, j) ⊎ In (q, j) d = rw s at m in
      let e : r ≡ p = (same_pair_iff r p).0 s in
      elim entry [
        | inl same ↦ inl (ap (λ (x : Pair). (x, i)) (sym e) ∙ same)
        | inr old ↦ inr (inr old)
      ]
  | inr o ↦
      let entry : ◌≡◌ {A = Pair × ℕ} (r, k) (q, j) ⊎ In (q, j) (put_id p i d) = rw o at m in
      elim entry [
        | inl first ↦ inr (inl first)
        | inr later ↦ elim (In-put d p q i j later) [
          | inl same ↦ inl same
          | inr old ↦ inr (inr old)
        ]
      ]
]

put-Entries :
    (d rows : Ids) (p : Pair) (i : ℕ)
    → Entries d rows
    → find_id p rows ≡ some i
    → Entries (put_id p i d) rows
put-Entries d rows p i a e q j m = elim (In-put d p q i j m) [
  | inl same ↦ subst (λ (r : Pair × ℕ). find_id r.0 rows ≡ some r.1) same e
  | inr old ↦ a q j old
]

put-IsFound : (d : Ids) (p q : Pair) (i : ℕ) → IsFound q d → IsFound q (put_id p i d)
put-IsFound d p q i (j, e) = elim (Bool-cases (same_pair p q)) [
  | inl s ↦ (
    i,
    subst (λ x. find_id x (put_id p i d) ≡ some i) ((same_pair_iff p q).0 s) (find-put_same p i d),
  )
  | inr o ↦ (j, find-put_other p q i d o ∙ e)
]

update-Entries :
    (d xs rows : Ids)
    → Entries d rows
    → ((p : Pair) (i : ℕ) → In (p, i) xs → find_id p rows ≡ some i)
    → Entries (update d xs) rows
unfolding update
update-Entries d [] rows a h = a
update-Entries d ((p, i) ∷ xs) rows a h =
    update-Entries (put_id p i d) xs rows (put-Entries d rows p i a (h p i (inl refl)))
      (λ q j m. h q j (inr m))

update-keeps : (d xs : Ids) (p : Pair) → IsFound p d → IsFound p (update d xs)
unfolding update
update-keeps d [] p h = h
update-keeps d ((q, i) ∷ xs) p h = update-keeps (put_id q i d) xs p (put-IsFound d q p i h)

update-IsFound : (d xs : Ids) (p : Pair) (i : ℕ) → In (p, i) xs → IsFound p (update d xs)
unfolding update
update-IsFound d [] p i m = absurd m
update-IsFound d ((q, j) ∷ xs) p i (inl same) =
    let e : q ≡ p = ap (λ (r : Pair × ℕ). r.0) same in
    update-keeps (put_id q j d) xs p
      (subst (λ x. IsFound x (put_id q j d)) e (j, find-put_same q j d))
update-IsFound d ((q, j) ∷ xs) p i (inr m) = update-IsFound (put_id q j d) xs p i m

-- A pair is resolved, or it is still to resolve.
abbrev Placed : Pair → Ids × List Pair → Type 0
Placed p found = IsFound p found.0 ⊎ In p found.1

place-Placed :
    (o : Option ℕ) (p q : Pair) (found : Ids × List Pair)
    → Placed q found
    → Placed q (place o p found)
place-Placed (some i) p q (r, l) (inl h) = inl (put-IsFound r p q i h)
place-Placed (some i) p q (r, l) (inr m) = inr m
place-Placed none p q (r, l) (inl h) = inl h
place-Placed none p q (r, l) (inr m) = inr ((In-append q l (p ∷ [])).1 (inl m))

place-Placed_self : (o : Option ℕ) (p : Pair) (found : Ids × List Pair) → Placed p (place o p found)
place-Placed_self (some i) p (r, l) = inl (i, find-put_same p i r)
place-Placed_self none p (r, l) = inr ((In-append p l (p ∷ [])).1 (inr (inl refl)))

place-Entries :
    (o : Option ℕ) (p : Pair) (found : Ids × List Pair) (rows : Ids)
    → ((i : ℕ) → o ≡ some i → find_id p rows ≡ some i)
    → Entries found.0 rows
    → Entries (place o p found).0 rows
place-Entries (some i) p (r, l) rows h a = put-Entries r rows p i a (h i refl)
place-Entries none p (r, l) rows h a = a

module _ (cache : Ids) where
  split-Placed :
      (ps : List Pair) (found : Ids × List Pair) (p : Pair)
      → Placed p found
      → Placed p (split cache ps found)
  unfolding split
  split-Placed [] found p h = h
  split-Placed (q ∷ ps) found p h =
      split-Placed ps (place (find_id q cache) q found) p
        (place-Placed (find_id q cache) q p found h)

  split-covers :
      (ps : List Pair) (found : Ids × List Pair) (p : Pair)
      → In p ps
      → Placed p (split cache ps found)
  unfolding split
  split-covers [] found p m = absurd m
  split-covers (q ∷ ps) found p (inl same) = split-Placed ps (place (find_id q cache) q found) p (
      subst (λ x. Placed x (place (find_id q cache) q found)) same
        (place-Placed_self (find_id q cache) q found))
  split-covers (q ∷ ps) found p (inr m) = split-covers ps (place (find_id q cache) q found) p m

  split-Entries :
      (ps : List Pair) (found : Ids × List Pair) (rows : Ids)
      → Agrees cache rows
      → Entries found.0 rows
      → Entries (split cache ps found).0 rows
  unfolding split
  split-Entries [] found rows c a = a
  split-Entries (q ∷ ps) found rows c a =
      split-Entries ps (place (find_id q cache) q found) rows c
        (place-Entries (find_id q cache) q found rows (λ i h. c q i h) a)

listed-In : (ps : List Pair) (p : Pair) → In p ps → listed ps p ≡ true
listed-In [] p m = absurd m
listed-In (q ∷ ps) p (inl same) = rw ((same_pair_iff q p).1 same) refl
listed-In (q ∷ ps) p (inr m) = elim (Bool-cases (same_pair q p)) [
  | inl s ↦ rw s refl
  | inr o ↦ rw o (listed-In ps p m)
]

-- What a resolution of pairs makes of a table, and the ids that it gives.
pub record Resolves (pairs : Pair → Type 0) (t : LookupTable) (r : Ids × LookupTable) : Type 0 where
  pub table : Extends t r.1
  pub entries : Entries r.0 r.1.rows
  pub complete : (p : Pair) → pairs p → IsFound p r.0

create-Resolves :
    (d : Dialect) (t : LookupTable) (found : Ids × List Pair)
    → IsKeyed t
    → Entries found.0 t.rows
    → Resolves (λ p. Placed p found) t (create d t found)
unfolding create
create-Resolves d t (resolved, []) k a = record {
  table = record { keyed = k; kept = λ p i e. e };
  entries = a;
  complete = λ p. elim [ inl h ↦ h | inr m ↦ absurd m ];
}
create-Resolves d t (resolved, (q ∷ qs)) k a =
    let (grown, inserted) = insert_all-Extends d t (q ∷ qs) k in
    let rows = (insert_all d t (q ∷ qs)).rows in
    let wanted = λ (row : Pair × ℕ). listed (q ∷ qs) row.0 in
    let fetched = keep wanted rows in
    record {
      table = grown;
      entries =
          update-Entries resolved fetched rows (λ p i m. grown.kept p i (a p i m))
            (λ p i m. grown.keyed.one_row p i ((In-keep wanted (p, i) rows).0 m).0);
      complete = λ p. elim [
        | inl h ↦ update-keeps resolved fetched p h
        | inr m ↦
            let (i, e) = inserted p m in
            update-IsFound resolved fetched p i
              ((In-keep wanted (p, i) rows).1 (find-In p i rows e, listed-In (q ∷ qs) p m))
      ];
    }

nothing-Entries : (rows : Ids) → Entries [] rows
nothing-Entries rows p i m = absurd m

-- Every pair that is asked for gets an id, which is the id of the pair's row in the table that the
-- call leaves, and no other pair has that id; the table keeps the rows that it had. The conditions
-- are that the table was keyed and that the cache agreed with it.
pub get_or_create_ids-Resolves :
    (d : Dialect) (c : LookupCache) (t : LookupTable) (pairs : List Pair)
    → IsKeyed t
    → Entries c.cache t.rows
    → Resolves (λ p. In p pairs) t (get_or_create_ids d c t pairs)
unfolding get_or_create_ids
get_or_create_ids-Resolves d c t pairs k a =
    let found = split c.cache pairs ([], []) in
    let done = create-Resolves d t found k (
      split-Entries c.cache pairs ([], []) t.rows (λ p i h. a p i (find-In p i c.cache h))
        (nothing-Entries t.rows)) in
    record {
      table = done.table;
      entries = done.entries;
      complete = λ p m. done.complete p (split-covers c.cache pairs ([], []) p m);
    }

-- A cache whose entries are rows of a keyed table has only rows as entries again after
-- `get_or_create_ids` and the publication of what it resolved, now those of the table that the call
-- leaves.
pub publish-Entries :
    (d : Dialect) (c : LookupCache) (t : LookupTable) (pairs : List Pair)
    → IsKeyed t
    → Entries c.cache t.rows
    → Entries
        (publish c (get_or_create_ids d c t pairs).0).cache
        (get_or_create_ids d c t pairs).1.rows
unfolding publish
publish-Entries d c t pairs k a =
    let done = get_or_create_ids-Resolves d c t pairs k a in
    let (ids, u) = get_or_create_ids d c t pairs in
    update-Entries c.cache ids u.rows (λ p i m. done.table.kept p i (a p i m)) done.entries
