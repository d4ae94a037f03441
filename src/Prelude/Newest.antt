-- ===== src/Prelude/Newest.antt =====
-- One item for each key: a dictionary that takes an item only for a new key or in place of an older
-- item of its key.
use Prim.Native.Nat.{ℕ, ◌≤◌}
use mathlib.Core.Path.{◌≡◌, refl, sym, ap, subst, ◌∙◌}
use mathlib.Core.Logic.{◌≢◌, ◌⊎◌, inl, inr}
use mathlib.Core.List.{List, [], ◌∷◌, ◌++◌}
use native.Mathlib.Omega.{arith}
use knx_telegram_store.Prelude.Lists.{In, In-append}
use knx_telegram_store.Prelude.Equality.{PyEq, ◌==◌}
use knx_telegram_store.Prelude.Tests.{if◌then◌else◌, Bool-cases, ltb}
use knx_telegram_store.Prelude.Reorder.{Pairwise}

module _ {A K : Type 0} ⦃e : PyEq K⦄ (key : A → K) (stamp : A → ℕ) where
  abbrev pub newer_of : A → A → A
  newer_of x y = if ltb (stamp y) (stamp x) then x else y

  unfoldable pub put_newest : A → List A → List A
  put_newest x [] = x ∷ []
  put_newest x (y ∷ ys) =
      let below = put_newest x ys in if key y == key x then newer_of x y ∷ ys else y ∷ below

  unfoldable pub put_all : List A → List A → List A
  unfolding put_newest
  put_all d [] = d
  put_all d (x ∷ xs) = put_all (put_newest x d) xs

  abbrev pub OncePerKey : List A → Type 0
  OncePerKey [] = Unit
  OncePerKey (t ∷ ts) = ((u : A) → In u ts → key u ≢ key t) × OncePerKey ts

  -- An item of the key of `u` that is not older.
  abbrev pub Covered : A → List A → Type 0
  Covered u ts = (t : A) × In t ts × (key t ≡ key u) × (stamp u ≤ stamp t)

  pub record IsSummary (log ts : List A) : Type 0 where
    pub stored : (t : A) → In t ts → In t log
    pub covers : (u : A) → In u log → Covered u ts
    pub once : OncePerKey ts

  newer_of-cases : (x y : A) → (newer_of x y ≡ x) ⊎ (newer_of x y ≡ y)
  newer_of-cases x y = elim (Bool-cases (ltb (stamp y) (stamp x))) [
    | inl h ↦ inl (rw h refl)
    | inr h ↦ inr (rw h refl)
  ]

  newer_of-stamp : (x y : A) → (stamp x ≤ stamp (newer_of x y)) × (stamp y ≤ stamp (newer_of x y))
  newer_of-stamp x y = elim (Bool-cases (ltb (stamp y) (stamp x))) [
    | inl h ↦ (rw h (omega arith), rw h (ground arith))
    | inr h ↦ (rw h (ground arith), rw h (omega arith))
  ]

  newer_of-key : (x y : A) → key y ≡ key x → key (newer_of x y) ≡ key x
  newer_of-key x y same = elim (newer_of-cases x y) [ inl h ↦ ap key h | inr h ↦ ap key h ∙ same ]

  put_newest-In : (x y : A) (d : List A) → In y (put_newest x d) → (x ≡ y) ⊎ In y d
  unfolding put_newest
  put_newest-In x y [] m = m
  put_newest-In x y (z ∷ d) m = elim (Bool-cases (key z == key x)) [
    | inl s ↦
        let entry : (newer_of x z ≡ y) ⊎ In y d = rw s at m in
        elim entry [
          | inl here ↦ elim (newer_of-cases x z) [
            | inl new ↦ inl (sym new ∙ here)
            | inr old ↦ inr (inl (sym old ∙ here))
          ]
          | inr later ↦ inr (inr later)
        ]
    | inr o ↦
        let entry : (z ≡ y) ⊎ In y (put_newest x d) = rw o at m in
        elim entry [
          | inl here ↦ inr (inl here)
          | inr later ↦ elim (put_newest-In x y d later) [
            | inl new ↦ inl new
            | inr old ↦ inr (inr old)
          ]
        ]
  ]

  Covered-trans :
      (u t : A) (ts : List A) → key t ≡ key u → stamp u ≤ stamp t → Covered t ts → Covered u ts
  Covered-trans u t ts same le (v, i, k, l) = (v, i, k ∙ same, omega (arith, le, l))

  Covered-behind : (u t : A) (ts : List A) → Covered u ts → Covered u (t ∷ ts)
  Covered-behind u t ts (v, i, k, l) = (v, inr i, k, l)

  put_newest_self : (x : A) (d : List A) → Covered x (put_newest x d)
  unfolding put_newest
  put_newest_self x [] = (x, inl refl, refl, omega arith)
  put_newest_self x (y ∷ d) = elim (Bool-cases (key y == key x)) [
    | inl s ↦ rw s (
      newer_of x y,
      inl refl,
      newer_of-key x y ((e.test_iff (key y) (key x)).0 s),
      (newer_of-stamp x y).0,
    )
    | inr o ↦ rw o (Covered-behind x y (put_newest x d) (put_newest_self x d))
  ]

  put_newest-covers : (x u : A) (d : List A) → In u d → Covered u (put_newest x d)
  unfolding put_newest
  put_newest-covers x u [] m = absurd m
  put_newest-covers x u (y ∷ d) m = elim (Bool-cases (key y == key x)) [
    | inl s ↦ rw s (elim m [
      | inl here ↦
          subst (λ v. Covered v (newer_of x y ∷ d)) here
            (
              newer_of x y,
              inl refl,
              newer_of-key x y ((e.test_iff (key y) (key x)).0 s)
                  ∙ sym ((e.test_iff (key y) (key x)).0 s),
              (newer_of-stamp x y).1,
            )
      | inr later ↦ (u, inr later, refl, omega arith)
    ])
    | inr o ↦ rw o (elim m [
      | inl here ↦ (y, inl refl, ap key here, omega (arith, ap stamp here))
      | inr later ↦ Covered-behind u y (put_newest x d) (put_newest-covers x u d later)
    ])
  ]

  put_newest-OncePerKey : (x : A) (d : List A) → OncePerKey d → OncePerKey (put_newest x d)
  unfolding put_newest
  put_newest-OncePerKey x [] h = (λ u m. absurd m, tt)
  put_newest-OncePerKey x (y ∷ d) h = elim (Bool-cases (key y == key x)) [
    | inl s ↦
        let same = (e.test_iff (key y) (key x)).0 s in
        rw s (λ u m k. h.0 u m (k ∙ newer_of-key x y same ∙ sym same), h.1)
    | inr o ↦ rw o (
      λ u m k. elim (put_newest-In x u d m) [
        | inl new ↦ absurd cc ((e.test_iff (key y) (key x)).1 (sym k ∙ ap key (sym new)), o)
        | inr old ↦ h.0 u old k
      ],
      put_newest-OncePerKey x d h.1,
    )
  ]

  put_all-In : (y : A) (d xs : List A) → In y (put_all d xs) → In y d ⊎ In y xs
  unfolding put_all
  put_all-In y d [] m = inl m
  put_all-In y d (x ∷ xs) m = elim (put_all-In y (put_newest x d) xs m) [
    | inr later ↦ inr (inr later)
    | inl i ↦ elim (put_newest-In x y d i) [ inl new ↦ inr (inl new) | inr old ↦ inl old ]
  ]

  put_all-covers : (u : A) (d xs : List A) → In u d ⊎ In u xs → Covered u (put_all d xs)
  unfolding put_all
  put_all-covers u d [] (inl m) = (u, m, refl, omega arith)
  put_all-covers u d [] (inr m) = absurd m
  put_all-covers u d (x ∷ xs) (inl m) =
      let (t, i, k, l) = put_newest-covers x u d m in
      Covered-trans u t (put_all (put_newest x d) xs) k l
        (put_all-covers t (put_newest x d) xs (inl i))
  put_all-covers u d (x ∷ xs) (inr (inl same)) =
      let (t, i, k, l) = put_newest_self x d in
      subst (λ v. Covered v (put_all (put_newest x d) xs)) same
        (Covered-trans x t (put_all (put_newest x d) xs) k l
          (put_all-covers t (put_newest x d) xs (inl i)))
  put_all-covers u d (x ∷ xs) (inr (inr m)) = put_all-covers u (put_newest x d) xs (inr m)

  put_all-OncePerKey : (d xs : List A) → OncePerKey d → OncePerKey (put_all d xs)
  unfolding put_all
  put_all-OncePerKey d [] h = h
  put_all-OncePerKey d (x ∷ xs) h =
      put_all-OncePerKey (put_newest x d) xs (put_newest-OncePerKey x d h)

  pub IsSummary-empty : IsSummary [] []
  IsSummary-empty = record { stored = λ t m. m; covers = λ u m. absurd m; once = tt }

  -- The summaries of two parts of a log make the summary of the log.
  pub put_all-IsSummary :
      (log batch ls bs : List A)
      → IsSummary log ls
      → IsSummary batch bs
      → IsSummary (log ++ batch) (put_all ls bs)
  put_all-IsSummary log batch ls bs h k = record {
    stored = λ t m.
        (In-append t log batch).1
          (elim (put_all-In t ls bs m) [ inl i ↦ inl (h.stored t i) | inr i ↦ inr (k.stored t i) ]);
    covers = λ u m. elim ((In-append u log batch).0 m) [
      | inl i ↦
          let (t, j, same, le) = h.covers u i in
          Covered-trans u t (put_all ls bs) same le (put_all-covers t ls bs (inl j))
      | inr i ↦
          let (t, j, same, le) = k.covers u i in
          Covered-trans u t (put_all ls bs) same le (put_all-covers t ls bs (inr j))
    ];
    once = put_all-OncePerKey ls bs h.once;
  }

  -- The summary of a batch by itself.
  pub put_all-IsSummary_batch : (batch : List A) → IsSummary batch (put_all [] batch)
  put_all-IsSummary_batch batch = record {
    stored = λ t m. elim (put_all-In t [] batch m) [ inl i ↦ absurd i | inr i ↦ i ];
    covers = λ u m. put_all-covers u [] batch (inr m);
    once = put_all-OncePerKey [] batch tt;
  }

  OncePerKey-same :
      (t u : A) (ts : List A) → OncePerKey ts → In t ts → In u ts → key t ≡ key u → t ≡ u
  OncePerKey-same t u [] h i j k = absurd i
  OncePerKey-same t u (x ∷ ts) h (inl a) (inl b) k = sym a ∙ b
  OncePerKey-same t u (x ∷ ts) h (inl a) (inr j) k = absurd (h.0 u j (sym k ∙ ap key (sym a)))
  OncePerKey-same t u (x ∷ ts) h (inr i) (inl b) k = absurd (h.0 t i (k ∙ ap key (sym b)))
  OncePerKey-same t u (x ∷ ts) h (inr i) (inr j) k = OncePerKey-same t u ts h.1 i j k

  -- No item of the log is newer than the one of its key.
  pub IsSummary-newest :
      (log ts : List A) (t u : A)
      → IsSummary log ts
      → In t ts
      → In u log
      → key u ≡ key t
      → stamp u ≤ stamp t
  IsSummary-newest log ts t u h i m k =
      let (v, j, same, le) = h.covers u m in
      omega (arith, le, ap stamp (OncePerKey-same v t ts h.once j i (same ∙ k)))

-- Two dictionaries whose keys and stamps correspond stay so.
module _ {A B K L : Type 0} ⦃e : PyEq K⦄ ⦃f : PyEq L⦄ (key : A → K) (stamp : A → ℕ) (key' : B → L)
    (stamp' : B → ℕ) (R : A → B → Type 0)
    (keys : (x u : A) (y v : B) → R x y → R u v → (key x == key u) ≡ (key' y == key' v))
    (stamps : (x : A) (y : B) → R x y → stamp x ≡ stamp' y) where
  newer_of-related :
      (x u : A) (y v : B) → R x y → R u v → R (newer_of key stamp x u) (newer_of key' stamp' y v)
  newer_of-related x u y v r s =
      let tests : ltb (stamp u) (stamp x) ≡ ltb (stamp' v) (stamp' y) =
        cc (stamps x y r, stamps u v s) in
      elim (Bool-cases (ltb (stamp u) (stamp x))) [
        | inl h ↦ rw (h, sym tests ∙ h) r
        | inr h ↦ rw (h, sym tests ∙ h) s
      ]

  put_newest-Pairwise :
      (x : A) (y : B) (d : List A) (c : List B)
      → R x y
      → Pairwise R d c
      → Pairwise R (put_newest key stamp x d) (put_newest key' stamp' y c)
  unfolding put_newest
  put_newest-Pairwise x y [] [] r h = (r, tt)
  put_newest-Pairwise x y (u ∷ d) (v ∷ c) r h = elim (Bool-cases (key u == key x)) [
    | inl s ↦ rw (s, sym (keys u x v y h.0 r) ∙ s) (newer_of-related x u y v r h.0, h.1)
    | inr o ↦ rw (o, sym (keys u x v y h.0 r) ∙ o) (h.0, put_newest-Pairwise x y d c r h.1)
  ]
  put_newest-Pairwise x y [] (v ∷ c) r h = absurd h
  put_newest-Pairwise x y (u ∷ d) [] r h = absurd h

  pub put_all-Pairwise :
      (d xs : List A) (c ys : List B)
      → Pairwise R d c
      → Pairwise R xs ys
      → Pairwise R (put_all key stamp d xs) (put_all key' stamp' c ys)
  unfolding put_all
  put_all-Pairwise d [] c [] h k = h
  put_all-Pairwise d (x ∷ xs) c (y ∷ ys) h k =
      put_all-Pairwise (put_newest key stamp x d) xs (put_newest key' stamp' y c) ys
        (put_newest-Pairwise x y d c k.0 h) k.1
  put_all-Pairwise d [] c (y ∷ ys) h k = absurd k
  put_all-Pairwise d (x ∷ xs) c [] h k = absurd k
