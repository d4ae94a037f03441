-- ===== src/Prelude/Sorting.antt =====
-- Python's `list.sort`, a stable sort. `before x y` says that `x` may stand in front of `y`;
-- items that may stand either way keep their order.
use mathlib.Core.Path.{◌≡◌, refl, ap, ◌∙◌}
use mathlib.Core.Logic.{◌↔◌, ◌⊎◌, inl, inr}
use mathlib.Core.Bool.{Bool, true, false}
use mathlib.Core.List.{List, [], ◌∷◌, Perm}
use mathlib.Core.List.Perm
use native.Mathlib.Omega.{arith}
use Prim.Native.Nat.{ℕ, zero, suc}
use knx_telegram_store.Prelude.Keep.{keep}
use knx_telegram_store.Prelude.Lists.{length, take, drop, All, In}
use knx_telegram_store.Prelude.Tests.{if◌then◌else◌, Bool-cases}

module _ {ℓ} {A : Type ℓ} (before : A → A → Bool) where
  unfoldable pub insert_sorted : A → List A → List A
  insert_sorted x [] = x ∷ []
  insert_sorted x (y ∷ ys) =
      let rest = insert_sorted x ys in if before x y then x ∷ y ∷ ys else y ∷ rest

  unfoldable pub sort : List A → List A
  unfolding insert_sorted
  sort [] = []
  sort (x ∷ xs) = insert_sorted x (sort xs)

  abbrev pub IsSorted : List A → Type 0
  IsSorted [] = Unit
  IsSorted (x ∷ xs) = All (λ y. before x y ≡ true) xs × IsSorted xs

  length-insert_sorted : (x : A) (xs : List A) → length (insert_sorted x xs) ≡ suc (length xs)
  unfolding insert_sorted
  length-insert_sorted x [] = refl
  length-insert_sorted x (y ∷ ys) = ground (arith, length-insert_sorted x ys)

  pub length-sort : (xs : List A) → length (sort xs) ≡ length xs
  unfolding sort
  length-sort [] = refl
  length-sort (x ∷ xs) = length-insert_sorted x (sort xs) ∙ ap suc (length-sort xs)

  insert_sorted-perm : (x : A) (xs : List A) → Perm (insert_sorted x xs) (x ∷ xs)
  unfolding insert_sorted
  insert_sorted-perm x [] = Perm.refl (x ∷ [])
  insert_sorted-perm x (y ∷ ys) = elim (Bool-cases (before x y)) [
    | inl e ↦ rw e (Perm.refl _)
    | inr e ↦ rw e (Perm.trans (Perm.cons y (insert_sorted-perm x ys)) (Perm.swap x y ys))
  ]

  pub sort-perm : (xs : List A) → Perm (sort xs) xs
  unfolding sort
  sort-perm [] = Perm.refl []
  sort-perm (x ∷ xs) = Perm.trans (insert_sorted-perm x (sort xs)) (Perm.cons x (sort-perm xs))

  All-insert_sorted {κ} :
      (P : A → Type κ) (x : A) (xs : List A) → P x → All P xs → All P (insert_sorted x xs)
  unfolding insert_sorted
  All-insert_sorted P x [] h hs = (h, tt)
  All-insert_sorted P x (y ∷ ys) h hs = elim (Bool-cases (before x y)) [
    | inl e ↦ rw e (h, hs)
    | inr e ↦ rw e (hs.0, All-insert_sorted P x ys h hs.1)
  ]

  -- Sorting changes no run of items that may stand either way: the sort is stable.
  module _ (p : A → Bool) (tied : (a b : A) → p a ≡ true → p b ≡ true → before a b ≡ true) where
    keep-insert_sorted : (x : A) (xs : List A) → keep p (insert_sorted x xs) ≡ keep p (x ∷ xs)
    unfolding insert_sorted
    keep-insert_sorted x [] = refl
    keep-insert_sorted x (y ∷ ys) = ground (arith, keep-insert_sorted x ys, tied x y)

    pub sort_stable : (xs : List A) → keep p (sort xs) ≡ keep p xs
    unfolding sort
    sort_stable [] = refl
    sort_stable (x ∷ xs) = ground (arith, keep-insert_sorted x (sort xs), sort_stable xs)

  module _ (total : (a b : A) → before a b ≡ false → before b a ≡ true)
      (trans : (a b c : A) → before a b ≡ true → before b c ≡ true → before a c ≡ true) where
    All-before :
        (x y : A) (xs : List A)
        → before x y ≡ true
        → All (λ z. before y z ≡ true) xs
        → All (λ z. before x z ≡ true) xs
    All-before x y [] h hs = tt
    All-before x y (z ∷ zs) h hs = (trans x y z h hs.0, All-before x y zs h hs.1)

    insert_sorted-IsSorted : (x : A) (xs : List A) → IsSorted xs → IsSorted (insert_sorted x xs)
    unfolding insert_sorted
    insert_sorted-IsSorted x [] h = (tt, tt)
    insert_sorted-IsSorted x (y ∷ ys) h = elim (Bool-cases (before x y)) [
      | inl e ↦ rw e ((e, All-before x y ys e h.0), h)
      | inr e ↦ rw e (
        All-insert_sorted (λ z. before y z ≡ true) x ys (total x y e) h.0,
        insert_sorted-IsSorted x ys h.1,
      )
    ]

    pub sort-IsSorted : (xs : List A) → IsSorted (sort xs)
    unfolding sort
    sort-IsSorted [] = tt
    sort-IsSorted (x ∷ xs) = insert_sorted-IsSorted x (sort xs) (sort-IsSorted xs)

  All-take {κ} : (P : A → Type κ) (n : ℕ) (xs : List A) → All P xs → All P (take n xs)
  All-take P zero xs h = tt
  All-take P (suc n) [] h = tt
  All-take P (suc n) (x ∷ xs) h = (h.0, All-take P n xs h.1)

  pub take-IsSorted : (n : ℕ) (xs : List A) → IsSorted xs → IsSorted (take n xs)
  take-IsSorted zero xs h = tt
  take-IsSorted (suc n) [] h = tt
  take-IsSorted (suc n) (x ∷ xs) h =
      (All-take (λ y. before x y ≡ true) n xs h.0, take-IsSorted n xs h.1)

  pub drop-IsSorted : (n : ℕ) (xs : List A) → IsSorted xs → IsSorted (drop n xs)
  drop-IsSorted zero xs h = h
  drop-IsSorted (suc n) [] h = tt
  drop-IsSorted (suc n) (x ∷ xs) h = drop-IsSorted n xs h.1

module _ {A : Type 0} (before : A → A → Bool) where
  In-insert_sorted :
      (a x : A) (xs : List A) → In a (insert_sorted before x xs) ↔ ((x ≡ a) ⊎ In a xs)
  unfolding insert_sorted
  In-insert_sorted a x [] = (λ m. m, λ m. m)
  In-insert_sorted a x (y ∷ ys) = elim (Bool-cases (before x y)) [
    | inl e ↦ rw e (λ m. m, λ m. m)
    | inr e ↦ rw e (
      λ m. elim m [
        | inl q ↦ inr (inl q)
        | inr i ↦ elim ((In-insert_sorted a x ys).0 i) [ inl q ↦ inl q | inr j ↦ inr (inr j) ]
      ],
      λ m. elim m [
        | inl q ↦ inr ((In-insert_sorted a x ys).1 (inl q))
        | inr (inl q) ↦ inl q
        | inr (inr j) ↦ inr ((In-insert_sorted a x ys).1 (inr j))
      ],
    )
  ]

  pub In-sort : (a : A) (xs : List A) → In a (sort before xs) ↔ In a xs
  unfolding sort
  In-sort a [] = (λ m. m, λ m. m)
  In-sort a (x ∷ xs) = (
    λ m. elim ((In-insert_sorted a x (sort before xs)).0 m) [
      | inl q ↦ inl q
      | inr i ↦ inr ((In-sort a xs).0 i)
    ],
    λ m.
        (In-insert_sorted a x (sort before xs)).1
          (elim m [ inl q ↦ inl q | inr i ↦ inr ((In-sort a xs).1 i) ]),
  )
