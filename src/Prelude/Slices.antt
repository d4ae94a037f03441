-- ===== src/Prelude/Slices.antt =====
-- Python's slices and the end of a list: `xs[start:end]` with its negative indices, `xs[-n:]`.
use Prim.Native.Nat.{ℕ, suc, ◌-◌, ◌≤◌, min}
use mathlib.Core.Path.{◌≡◌, sym, ap, ◌∙◌}
use mathlib.Core.List.{List, ◌++◌}
use native.Mathlib.Omega.{arith}
use knx_telegram_store.Prelude.Int.{ℤ, pos, negsuc}
use knx_telegram_store.Prelude.Lists.{
  length, take, drop, length-append, length-drop, drop-drop, drop-append,
}

-- A slice index counts from the end if it is negative, and is then cut off at the start.
abbrev pub slice_index : ℕ → ℤ → ℕ
slice_index n (pos i) = i
slice_index n (negsuc i) = n - suc i

module _ {ℓ} {A : Type ℓ} where
  -- `xs[start:end]`
  unfoldable pub slice : ℤ → ℤ → List A → List A
  slice start end xs =
      let low = slice_index (length xs) start in
      take (slice_index (length xs) end - low) (drop low xs)

  -- The last `n` items, all of them if there are fewer.
  abbrev pub take_last : ℕ → List A → List A
  take_last n xs = drop (length xs - n) xs

  pub length-take_last : (n : ℕ) (xs : List A) → length (take_last n xs) ≡ min n (length xs)
  length-take_last n xs = omega (arith, length-drop (length xs - n) xs)

  pub take_last_all : (n : ℕ) (xs : List A) → length xs ≤ n → take_last n xs ≡ xs
  take_last_all n xs h = let e : length xs - n ≡ 0 = omega arith in ap (λ k. drop k xs) e

  -- To cut a list to its last `n` items before more items come makes no difference.
  pub take_last-append :
      (n : ℕ) (xs ys : List A) → take_last n (take_last n xs ++ ys) ≡ take_last n (xs ++ ys)
  take_last-append n xs ys =
      let cut = length xs - n in
      let fits : cut ≤ length xs = omega arith in
      let joined = sym (drop-append cut xs ys fits) in
      ap (take_last n) joined
      ∙ drop-drop (length (drop cut (xs ++ ys)) - n) cut (xs ++ ys)
      ∙ ap (λ k. drop k (xs ++ ys)) (omega (arith, length-drop cut (xs ++ ys), length-append xs ys))
