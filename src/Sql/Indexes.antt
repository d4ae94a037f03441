-- ===== src/Sql/Indexes.antt =====
-- The declared indexes after `ensure_indexes`.
use knx_telegram_store.Prelude.{
  Bool, true, false, not, String, List, [], ◌∷◌, ◌++◌, Option, none, some, is_nonempty, contains,
  contains_iff, nat_eq, string_eq, option_eq, ◌≡◌, refl, ap, In, In-append, inl, inr, Bool-cases,
}
use knx_telegram_store.Prelude.Keep.{keep, In-keep}
use knx_telegram_store.Sql.Startup.{
  Catalogue, missing, lacks, any_lacks, obsolete_indexes, ensured, ensure_indexes,
}

-- The declared indexes are not among those to drop.
abbrev pub KeepsDeclared : List String → Type 0
KeepsDeclared declared = (name : String) → In name declared → contains obsolete_indexes name ≡ false

missing-ensured :
    (declared existing : List String) (name : String)
    → KeepsDeclared declared
    → In name declared
    → contains
        (keep (λ n. not (contains obsolete_indexes n)) (existing ++ missing declared existing))
        name
      ≡ true
missing-ensured declared existing name h i =
    let there : In name (existing ++ missing declared existing) =
      (In-append name existing (missing declared existing)).1
        (elim (Bool-cases (contains existing name)) [
          | inl old ↦ inl ((contains_iff existing name).0 old)
          | inr new ↦
              inr ((In-keep (λ n. not (contains existing n)) name declared).1 (i, ap not new))
        ]) in
    (contains_iff _ name).1
      ((In-keep (λ n. not (contains obsolete_indexes n)) name _).1 (there, ap not (h name i)))

keep-none :
    (p : String → Bool) (xs : List String) → ((x : String) → In x xs → p x ≡ false) → keep p xs ≡ []
keep-none p [] h = refl
keep-none p (x ∷ xs) h = rw (h x (inl refl)) (keep-none p xs (λ y i. h y (inr i)))

lacks-ensured :
    (declared : List String) (o : Option (List String))
    → KeepsDeclared declared
    → lacks declared (ensured declared o) ≡ false
lacks-ensured declared none h = refl
lacks-ensured declared (some existing) h = ap is_nonempty (
    keep-none
      (λ name. not (
        contains
          (keep (λ n. not (contains obsolete_indexes n)) (existing ++ missing declared existing))
          name))
      declared (λ name i. ap not (missing-ensured declared existing name h i)))

pub ensure_indexes-lacks :
    (declared : String → List String) (c : Catalogue) (ts : List String)
    → ((t : String) → KeepsDeclared (declared t))
    → any_lacks declared (ensure_indexes declared c) ts ≡ false
unfolding ensure_indexes
ensure_indexes-lacks declared c [] h = refl
ensure_indexes-lacks declared c (t ∷ ts) h =
    rw (lacks-ensured (declared t) (c.indexes t) (h t)) (ensure_indexes-lacks declared c ts h)
