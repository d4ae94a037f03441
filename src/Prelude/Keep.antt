-- ===== src/Prelude/Keep.antt =====
-- `[x for x in xs if p(x)]`, and what it keeps.
use Prim.Native.Nat.{ℕ, suc, ◌≤◌}
use mathlib.Core.Path.{◌≡◌, refl, ap, subst}
use mathlib.Core.Logic.{◌↔◌, inl, inr}
use mathlib.Core.Bool.{Bool, true, ◌&&◌}
use mathlib.Core.List.{List, [], ◌∷◌, ◌++◌}
use native.Mathlib.Omega.{arith}
use knx_telegram_store.Prelude.Lists.{length, All, In}
use knx_telegram_store.Prelude.Tests.{if◌then◌else◌, Bool-cases}

module _ {ℓ} {A : Type ℓ} where
  abbrev pub keep : (A → Bool) → List A → List A
  keep p [] = []
  keep p (x ∷ xs) = let rest = keep p xs in if p x then x ∷ rest else rest

  -- `sum(p(x) for x in xs)`
  abbrev pub count_if : (A → Bool) → List A → ℕ
  count_if p [] = 0
  count_if p (x ∷ xs) = let rest = count_if p xs in if p x then suc rest else rest

  module _ (p : A → Bool) where
    pub length-keep : (xs : List A) → length (keep p xs) ≡ count_if p xs
    length-keep [] = refl
    length-keep (x ∷ xs) = ground (arith, length-keep xs)

    pub length-keep-le : (xs : List A) → length (keep p xs) ≤ length xs
    length-keep-le [] = omega arith
    length-keep-le (x ∷ xs) = ground (arith, length-keep-le xs)

    pub keep-append : (xs ys : List A) → keep p (xs ++ ys) ≡ keep p xs ++ keep p ys
    keep-append [] ys = refl
    keep-append (x ∷ xs) ys = ground (arith, keep-append xs ys)

    -- A filter that every item passes changes nothing.
    pub keep-All : (xs : List A) → All (λ x. p x ≡ true) xs → keep p xs ≡ xs
    keep-All [] h = refl
    keep-All (x ∷ xs) h = rw h.0 (ap (◌∷◌ x) (keep-All xs h.1))

    pub All-keep {κ} : (P : A → Type κ) (xs : List A) → All P xs → All P (keep p xs)
    All-keep P [] h = tt
    All-keep P (x ∷ xs) h = elim (Bool-cases (p x)) [
      | inl e ↦ rw e (h.0, All-keep P xs h.1)
      | inr e ↦ rw e (All-keep P xs h.1)
    ]

  -- Two filters in a row are one.
  pub keep-keep : (p q : A → Bool) (xs : List A) → keep q (keep p xs) ≡ keep (λ x. p x && q x) xs
  keep-keep p q [] = refl
  keep-keep p q (x ∷ xs) = ground (arith, keep-keep p q xs)

  pub keep_congr : (p q : A → Bool) (xs : List A) → ((x : A) → p x ≡ q x) → keep p xs ≡ keep q xs
  keep_congr p q [] h = refl
  keep_congr p q (x ∷ xs) h = ground (arith, h x, keep_congr p q xs h)

module _ {A : Type 0} (p : A → Bool) where
  pub In-keep : (a : A) (xs : List A) → In a (keep p xs) ↔ (In a xs × (p a ≡ true))
  In-keep a [] = (λ h. absurd h, λ h. h.0)
  In-keep a (x ∷ xs) = elim (Bool-cases (p x)) [
    | inl e ↦ rw e (
      λ m. elim m [
        | inl q ↦ (inl q, subst (λ y. p y ≡ true) q e)
        | inr i ↦ let (j, k) = (In-keep a xs).0 i in (inr j, k)
      ],
      λ h. elim h.0 [ inl q ↦ inl q | inr i ↦ inr ((In-keep a xs).1 (i, h.1)) ],
    )
    | inr e ↦ rw e (
      λ i. let (j, k) = (In-keep a xs).0 i in (inr j, k),
      λ h. elim h.0 [ inl q ↦ absurd (ground (arith, ap p q)) | inr i ↦ (In-keep a xs).1 (i, h.1) ],
    )
  ]
