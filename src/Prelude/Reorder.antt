-- ===== src/Prelude/Reorder.antt =====
-- The same items in another order, as steps that a proof can follow; and two lists related item by
-- item.
use mathlib.Core.Path.{◌≡◌, refl, sym, ap, subst, ◌∙◌}
use mathlib.Core.Logic.{inl, inr}
use mathlib.Core.Bool.{Bool, true}
use mathlib.Core.List.{List, [], ◌∷◌, ◌++◌, Perm}
use mathlib.Core.List.Perm
use Prim.Native.Nat.{ℕ, zero, suc}
use knx_telegram_store.Prelude.Keep.{keep}
use knx_telegram_store.Prelude.Lists.{length, take, drop, All, In}
use knx_telegram_store.Prelude.Sorting.{insert_sorted, sort, IsSorted}
use knx_telegram_store.Prelude.Tests.{Bool-cases}

pub data Reordered {A : Type 0} : List A → List A → Type 0 where
  same : (xs : List A) → Reordered xs xs
  behind : (x : A) (xs ys : List A) → Reordered xs ys → Reordered (x ∷ xs) (x ∷ ys)
  swapped : (x y : A) (xs : List A) → Reordered (x ∷ y ∷ xs) (y ∷ x ∷ xs)
  chained : (xs ys zs : List A) → Reordered xs ys → Reordered ys zs → Reordered xs zs

module _ {A : Type 0} where
  pub Reordered-Perm : (xs ys : List A) → Reordered xs ys → Perm xs ys
  Reordered-Perm xs ys (same _) = Perm.refl xs
  Reordered-Perm xs ys (behind x us vs r) = Perm.cons x (Reordered-Perm us vs r)
  Reordered-Perm xs ys (swapped x y us) = Perm.swap y x us
  Reordered-Perm xs ys (chained us vs ws r s) =
      Perm.trans (Reordered-Perm us vs r) (Reordered-Perm vs ws s)

  -- `sort` is one of the orders that a database may choose.
  insert_sorted-Reordered :
      (before : A → A → Bool) (x : A) (xs : List A) → Reordered (insert_sorted before x xs) (x ∷ xs)
  unfolding insert_sorted
  insert_sorted-Reordered before x [] = same (x ∷ [])
  insert_sorted-Reordered before x (y ∷ ys) = elim (Bool-cases (before x y)) [
    | inl e ↦ rw e (same (x ∷ y ∷ ys))
    | inr e ↦ rw e (
        chained (y ∷ insert_sorted before x ys) (y ∷ x ∷ ys) (x ∷ y ∷ ys)
          (behind y (insert_sorted before x ys) (x ∷ ys) (insert_sorted-Reordered before x ys))
          (swapped y x ys))
  ]

  pub sort-Reordered : (before : A → A → Bool) (xs : List A) → Reordered (sort before xs) xs
  unfolding sort
  sort-Reordered before [] = same []
  sort-Reordered before (x ∷ xs) =
      chained (insert_sorted before x (sort before xs)) (x ∷ sort before xs) (x ∷ xs)
        (insert_sorted-Reordered before x (sort before xs))
        (behind x (sort before xs) xs (sort-Reordered before xs))

module _ {A B : Type 0} (R : A → B → Type 0) where
  abbrev pub Pairwise : List A → List B → Type 0
  Pairwise [] [] = Unit
  Pairwise (x ∷ xs) (y ∷ ys) = R x y × Pairwise xs ys
  Pairwise [] (y ∷ ys) = ⊥
  Pairwise (x ∷ xs) [] = ⊥

  pub Pairwise-append :
      (xs us : List A) (ys vs : List B)
      → Pairwise xs ys
      → Pairwise us vs
      → Pairwise (xs ++ us) (ys ++ vs)
  Pairwise-append [] us [] vs h k = k
  Pairwise-append (x ∷ xs) us (y ∷ ys) vs h k = (h.0, Pairwise-append xs us ys vs h.1 k)
  Pairwise-append [] us (y ∷ ys) vs h k = absurd h
  Pairwise-append (x ∷ xs) us [] vs h k = absurd h

  pub Pairwise-take :
      (n : ℕ) (xs : List A) (ys : List B) → Pairwise xs ys → Pairwise (take n xs) (take n ys)
  Pairwise-take zero xs ys h = tt
  Pairwise-take (suc n) [] [] h = tt
  Pairwise-take (suc n) (x ∷ xs) (y ∷ ys) h = (h.0, Pairwise-take n xs ys h.1)
  Pairwise-take (suc n) [] (y ∷ ys) h = absurd h
  Pairwise-take (suc n) (x ∷ xs) [] h = absurd h

  pub Pairwise-drop :
      (n : ℕ) (xs : List A) (ys : List B) → Pairwise xs ys → Pairwise (drop n xs) (drop n ys)
  Pairwise-drop zero xs ys h = h
  Pairwise-drop (suc n) [] [] h = tt
  Pairwise-drop (suc n) (x ∷ xs) (y ∷ ys) h = Pairwise-drop n xs ys h.1
  Pairwise-drop (suc n) [] (y ∷ ys) h = absurd h
  Pairwise-drop (suc n) (x ∷ xs) [] h = absurd h

  pub Pairwise-length : (xs : List A) (ys : List B) → Pairwise xs ys → length xs ≡ length ys
  Pairwise-length [] [] h = refl
  Pairwise-length (x ∷ xs) (y ∷ ys) h = ap suc (Pairwise-length xs ys h.1)
  Pairwise-length [] (y ∷ ys) h = absurd h
  Pairwise-length (x ∷ xs) [] h = absurd h

  -- Filters that agree on related items keep related items.
  pub Pairwise-keep :
      (p : A → Bool) (q : B → Bool)
      → ((x : A) (y : B) → R x y → p x ≡ q y)
      → (xs : List A) (ys : List B) → Pairwise xs ys
      → Pairwise (keep p xs) (keep q ys)
  Pairwise-keep p q agree [] [] h = tt
  Pairwise-keep p q agree (x ∷ xs) (y ∷ ys) h = elim (Bool-cases (p x)) [
    | inl e ↦ rw (e, sym (agree x y h.0) ∙ e) (h.0, Pairwise-keep p q agree xs ys h.1)
    | inr e ↦ rw (e, sym (agree x y h.0) ∙ e) (Pairwise-keep p q agree xs ys h.1)
  ]
  Pairwise-keep p q agree [] (y ∷ ys) h = absurd h
  Pairwise-keep p q agree (x ∷ xs) [] h = absurd h

  pub Pairwise-In :
      (xs : List A) (ys : List B) (y : B) → Pairwise xs ys → In y ys → (x : A) × In x xs × R x y
  Pairwise-In [] [] y h m = absurd m
  Pairwise-In (x ∷ xs) (z ∷ ys) y h (inl e) = (x, inl refl, subst (R x) e h.0)
  Pairwise-In (x ∷ xs) (z ∷ ys) y h (inr m) =
      let (a, i, r) = Pairwise-In xs ys y h.1 m in (a, inr i, r)
  Pairwise-In [] (z ∷ ys) y h m = absurd h
  Pairwise-In (x ∷ xs) [] y h m = absurd h

  pub Pairwise-In_left :
      (xs : List A) (ys : List B) (x : A) → Pairwise xs ys → In x xs → (y : B) × In y ys × R x y
  Pairwise-In_left [] [] x h m = absurd m
  Pairwise-In_left (z ∷ xs) (y ∷ ys) x h (inl e) = (y, inl refl, subst (λ a. R a y) e h.0)
  Pairwise-In_left (z ∷ xs) (y ∷ ys) x h (inr m) =
      let (b, i, r) = Pairwise-In_left xs ys x h.1 m in (b, inr i, r)
  Pairwise-In_left [] (y ∷ ys) x h m = absurd h
  Pairwise-In_left (z ∷ xs) [] x h m = absurd h

  -- What is related to a list in another order is in another order itself.
  pub Pairwise-Reordered :
      (us vs : List B)
      → Reordered us vs
      → (ys : List A) → Pairwise ys vs
      → (xs : List A) × Reordered xs ys × Pairwise xs us
  Pairwise-Reordered us vs (same _) ys h = (ys, same ys, h)
  Pairwise-Reordered us vs (behind b bs cs r) (y ∷ ys) h =
      let (xs, s, k) = Pairwise-Reordered bs cs r ys h.1 in (y ∷ xs, behind y xs ys s, (h.0, k))
  Pairwise-Reordered us vs (behind b bs cs r) [] h = absurd h
  Pairwise-Reordered us vs (swapped b c bs) (y ∷ z ∷ ys) h =
      (z ∷ y ∷ ys, swapped z y ys, (h.1.0, (h.0, h.1.1)))
  Pairwise-Reordered us vs (swapped b c bs) (y ∷ []) h = absurd (h.1)
  Pairwise-Reordered us vs (swapped b c bs) [] h = absurd h
  Pairwise-Reordered us vs (chained bs cs ds r s) ys h =
      let (zs, t, k) = Pairwise-Reordered cs ds s ys h in
      let (xs, u, l) = Pairwise-Reordered bs cs r zs k in (xs, chained xs zs ys u t, l)

  -- An order that related items agree on.
  pub Pairwise-IsSorted :
      (p : A → A → Bool) (q : B → B → Bool)
      → ((x u : A) (y v : B) → R x y → R u v → q y v ≡ true → p x u ≡ true)
      → (xs : List A) (ys : List B) → Pairwise xs ys
      → IsSorted q ys
      → IsSorted p xs
  Pairwise-IsSorted p q agree [] [] h s = tt
  Pairwise-IsSorted p q agree (x ∷ xs) (y ∷ ys) h s =
      (all xs ys h.1 s.0, Pairwise-IsSorted p q agree xs ys h.1 s.1)
    where
      all :
          (us : List A) (vs : List B)
          → Pairwise us vs
          → All (λ v. q y v ≡ true) vs
          → All (λ u. p x u ≡ true) us
      all [] [] k a = tt
      all (u ∷ us) (v ∷ vs) k a = (agree x u y v h.0 k.0 a.0, all us vs k.1 a.1)
      all [] (v ∷ vs) k a = absurd k
      all (u ∷ us) [] k a = absurd k
  Pairwise-IsSorted p q agree [] (y ∷ ys) h s = absurd h
  Pairwise-IsSorted p q agree (x ∷ xs) [] h s = absurd h
