-- ===== src/Memory/Deque.antt =====
-- `collections.deque` with a `maxlen`: what falls out in front, and what a run of appends leaves.
use knx_telegram_store.Prelude.{
  ℕ, ◌≤◌, ◌≡◌, refl, ap, ◌∙◌, List, [], ◌∷◌, ◌++◌, arith, length, drop, ltb, if◌then◌else◌,
  length-append, Bool-cases, inl, inr, ◌-◌, sym, ltb→lt, ltb→le,
}
use mathlib.Core.List.{append-nil, append_assoc}
use knx_telegram_store.Prelude.Slices.{take_last, take_last_all, take_last-append, length-take_last}

module _ {ℓ} {A : Type ℓ} where
  -- An item too many is dropped on the other end.
  unfoldable pub append : ℕ → List A → A → List A
  append maxlen xs x =
      let longer = xs ++ x ∷ [] in if ltb maxlen (length longer) then drop 1 longer else longer

  unfoldable pub extend : ℕ → List A → List A → List A
  unfolding append
  extend maxlen xs [] = xs
  extend maxlen xs (y ∷ ys) = extend maxlen (append maxlen xs y) ys

  pub append-take_last :
      (maxlen : ℕ) (xs : List A) (x : A)
      → length xs ≤ maxlen
      → append maxlen xs x ≡ take_last maxlen (xs ++ x ∷ [])
  unfolding append
  append-take_last maxlen xs x h = elim (Bool-cases (ltb maxlen (length (xs ++ x ∷ [])))) [
    | inl full ↦
        let e : length (xs ++ x ∷ []) - maxlen ≡ 1 =
          omega (arith, ltb→lt _ _ full, length-append xs (x ∷ [])) in
        rw (full, e) refl
    | inr room ↦ rw room (sym (take_last_all maxlen _ (ltb→le _ _ room)))
  ]

  pub length-append-le :
      (maxlen : ℕ) (xs : List A) (x : A) → length xs ≤ maxlen → length (append maxlen xs x) ≤ maxlen
  length-append-le maxlen xs x h =
      rw (append-take_last maxlen xs x h) (omega (arith, length-take_last maxlen (xs ++ x ∷ [])))

  -- The deque holds the last `maxlen` items of all that were put in.
  pub extend-take_last :
      (maxlen : ℕ) (xs ys : List A)
      → length xs ≤ maxlen
      → extend maxlen xs ys ≡ take_last maxlen (xs ++ ys)
  unfolding extend
  extend-take_last maxlen xs [] h =
      sym (ap (take_last maxlen) (append-nil xs) ∙ take_last_all maxlen xs h)
  extend-take_last maxlen xs (y ∷ ys) h =
      extend-take_last maxlen (append maxlen xs y) ys (length-append-le maxlen xs y h)
      ∙ ap (λ (l : List A). take_last maxlen (l ++ ys)) (append-take_last maxlen xs y h)
      ∙ take_last-append maxlen (xs ++ y ∷ []) ys
      ∙ ap (take_last maxlen) (append_assoc xs (y ∷ []) ys)
