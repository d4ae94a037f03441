-- ===== src/Prelude/Equality.antt =====
-- Python's `==` and `in`: one Boolean equality for each type of compared values.
use Prim.Native.Nat.{ℕ, compare, Ordering}
use Prim.Native.String.{String}
use mathlib.Core.Path.{◌≡◌, refl, ap}
use mathlib.Core.Logic.{◌↔◌, inl, inr}
use mathlib.Core.Bool.{Bool, true, false, ◌||◌}
use mathlib.Core.Option.{Option, none, some}
use mathlib.Core.List.{List, [], ◌∷◌}
use native.Mathlib.Omega.{arith}
use text.Mathlib.Text.{◌==◌ as str_beq}
use text.Mathlib.TextEquality.{eq_iff}
use knx_telegram_store.Prelude.Lists.{In}
use knx_telegram_store.Prelude.Tests.{Bool-cases}

abbrev pub nat_beq : ℕ → ℕ → Bool
nat_beq a b = elim (compare a b) [ Ordering.eq ↦ true | _ ↦ false ]

pub nat_beq_iff : (a b : ℕ) → (nat_beq a b ≡ true) ↔ (a ≡ b)
nat_beq_iff a b = ground arith

-- The values of `A` have an `==` that decides equality.
pub record PyEq {α} (A : Type α) : Type α where
  pub test : A → A → Bool
  pub test_iff : (a b : A) → (test a b ≡ true) ↔ (a ≡ b)

instance abbrev pub nat_eq : PyEq ℕ
nat_eq = record { test = nat_beq; test_iff = nat_beq_iff }

instance abbrev pub string_eq : PyEq String
string_eq = record { test = str_beq; test_iff = eq_iff }

infix 50 ◌==◌
abbrev pub ◌==◌ {α} : {A : Type α} ⦃e : PyEq A⦄ → A → A → Bool
◌==◌ ⦃e⦄ = e.test

module _ {ℓ} {A : Type ℓ} (e : PyEq A) where
  abbrev pub option_beq : Option A → Option A → Bool
  option_beq none none = true
  option_beq (some a) (some b) = e.test a b
  option_beq _ _ = false

  pub option_beq_iff : (a b : Option A) → (option_beq a b ≡ true) ↔ (a ≡ b)
  option_beq_iff none none = (λ _. refl, λ _. refl)
  option_beq_iff (some a) (some b) =
      (λ h. ap some ((e.test_iff a b).0 h), λ h. (e.test_iff a b).1 (cc))
  option_beq_iff none (some b) = (λ h. cc, λ h. cc)
  option_beq_iff (some a) none = (λ h. cc, λ h. cc)

module _ {ℓ} {A : Type ℓ} ⦃e : PyEq A⦄ where
  instance abbrev pub option_eq : PyEq (Option A)
  option_eq = record { test = option_beq e; test_iff = option_beq_iff e }

  pub ==_refl : (a : A) → (a == a) ≡ true
  ==_refl a = (e.test_iff a a).1 refl

module _ {A : Type 0} ⦃e : PyEq A⦄ where
  -- `a in xs`
  abbrev pub contains : List A → A → Bool
  contains [] a = false
  contains (x ∷ xs) a = x == a || contains xs a

  pub contains_iff : (xs : List A) (a : A) → (contains xs a ≡ true) ↔ In a xs
  contains_iff [] a = (λ h. absurd (cc), λ h. absurd h)
  contains_iff (x ∷ xs) a = elim (Bool-cases (x == a)) [
    | inl same ↦ (λ _. inl ((e.test_iff x a).0 same), λ _. rw same)
    | inr other ↦ (
      λ h. inr ((contains_iff xs a).0 (rw other at h)),
      λ m. rw other (elim m [
        | inl p ↦ absurd (ground (arith, (e.test_iff x a).1 p))
        | inr i ↦ (contains_iff xs a).1 i
      ]),
    )
  ]
