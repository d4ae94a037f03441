-- ===== src/Lookup/Pairs.antt =====
-- Dictionaries from a category and a value to an id.
use mathlib.Core.Path.{subst}
use text.Mathlib.TextEquality.{eq_iff}
use knx_telegram_store.Prelude.{
  ℕ, Bool, true, false, ◌&&◌, String, List, [], ◌∷◌, ◌++◌, Option, none, some, ◌≡◌, ◌↔◌, refl, ap,
  sym, ◌∙◌, arith, ◌==◌, string_eq, if◌then◌else◌, Bool-cases, inl, inr,
}

abbrev pub Pair : Type 0
Pair = String × String

abbrev pub same_pair : Pair → Pair → Bool
same_pair (a, b) (c, d) = a == c && b == d

pub same_pair_iff : (p q : Pair) → (same_pair p q ≡ true) ↔ (p ≡ q)
same_pair_iff (a, b) (c, d) = (
  λ h.
      let e : a ≡ c = ground (arith, eq_iff a c, eq_iff b d) in
      let f : b ≡ d = ground (arith, eq_iff a c, eq_iff b d) in cc (e, f),
  λ h.
      let e : a ≡ c = ap (λ (x : Pair). x.0) h in
      let f : b ≡ d = ap (λ (x : Pair). x.1) h in ground (arith, eq_iff a c, eq_iff b d),
)

abbrev pub Ids : Type 0
Ids = List (Pair × ℕ)

-- A row found first stays.
unfoldable pub find_id : Pair → Ids → Option ℕ
find_id p [] = none
find_id p ((q, i) ∷ rest) = let below = find_id p rest in if same_pair q p then some i else below

unfoldable pub put_id : Pair → ℕ → Ids → Ids
put_id p i [] = (p, i) ∷ []
put_id p i ((q, j) ∷ rest) =
    let below = put_id p i rest in if same_pair q p then (q, i) ∷ rest else (q, j) ∷ below

-- `dict.update`
unfoldable pub update : Ids → Ids → Ids
unfolding put_id
update d [] = d
update d ((p, i) ∷ rest) = update (put_id p i d) rest

-- The first entry, or what stands behind it.
pub find-head :
    (p q : Pair) (i : ℕ) (d : Ids) → same_pair p q ≡ true → find_id q ((p, i) ∷ d) ≡ some i
unfolding find_id
find-head p q i d s = rw s refl

pub find-tail :
    (p q : Pair) (i : ℕ) (d : Ids) → same_pair p q ≡ false → find_id q ((p, i) ∷ d) ≡ find_id q d
unfolding find_id
find-tail p q i d s = rw s refl

pub same_pair_refl : (p : Pair) → same_pair p p ≡ true
same_pair_refl p = (same_pair_iff p p).1 refl

pub find-put_same : (p : Pair) (i : ℕ) (d : Ids) → find_id p (put_id p i d) ≡ some i
unfolding put_id
find-put_same p i [] = find-head p p i [] (same_pair_refl p)
find-put_same p i ((r, j) ∷ d) = elim (Bool-cases (same_pair r p)) [
  | inl s ↦ rw s (find-head r p i d s)
  | inr o ↦ rw o (find-tail r p j (put_id p i d) o ∙ find-put_same p i d)
]

pub find-put_other :
    (p q : Pair) (i : ℕ) (d : Ids) → same_pair p q ≡ false → find_id q (put_id p i d) ≡ find_id q d
unfolding put_id
find-put_other p q i [] h = find-tail p q i [] h
find-put_other p q i ((r, j) ∷ d) h = elim (Bool-cases (same_pair r p)) [
  | inl s ↦
      let o : same_pair r q ≡ false =
        subst (λ x. same_pair x q ≡ false) (sym ((same_pair_iff r p).0 s)) h in
      rw s (find-tail r q i d o ∙ sym (find-tail r q j d o))
  | inr o ↦ rw o (elim (Bool-cases (same_pair r q)) [
    | inl s ↦ find-head r q j (put_id p i d) s ∙ sym (find-head r q j d s)
    | inr n ↦
        find-tail r q j (put_id p i d) n ∙ find-put_other p q i d h ∙ sym (find-tail r q j d n)
  ])
]

pub find-nothing : (q : Pair) → find_id q [] ≡ none
unfolding find_id
find-nothing q = refl

pub find-append_found :
    (q : Pair) (j : ℕ) (d e : Ids) → find_id q d ≡ some j → find_id q (d ++ e) ≡ some j
find-append_found q j [] e h = absurd (cc (find-nothing q, h))
find-append_found q j ((r, k) ∷ d) e h = elim (Bool-cases (same_pair r q)) [
  | inl s ↦ find-head r q k (d ++ e) s ∙ sym (find-head r q k d s) ∙ h
  | inr o ↦ find-tail r q k (d ++ e) o ∙ find-append_found q j d e (sym (find-tail r q k d o) ∙ h)
]

pub find-append_new : (q : Pair) (d e : Ids) → find_id q d ≡ none → find_id q (d ++ e) ≡ find_id q e
find-append_new q [] e h = refl
find-append_new q ((r, k) ∷ d) e h = elim (Bool-cases (same_pair r q)) [
  | inl s ↦ absurd (cc (find-head r q k d s, h))
  | inr o ↦ find-tail r q k (d ++ e) o ∙ find-append_new q d e (sym (find-tail r q k d o) ∙ h)
]
