-- ===== src/Sql/Metadata.antt =====
-- The values in `store_metadata`.
use mathlib.Core.Path.{subst}
use text.Mathlib.TextEquality.{eq_iff}
use knx_telegram_store.Prelude.{
  if_false, sym, false, not, String, [], ◌∷◌, ◌++◌, none, some, if◌then◌else◌, nat_eq, string_eq,
  option_eq, ==_refl, ◌==◌, ◌≡◌, refl, ◌∙◌, inl, inr, Bool-cases, if_true,
}
use knx_telegram_store.Prelude.Keep.{keep}
use knx_telegram_store.Sql.Startup.{Metadata, metadata_value, upsert_metadata, set_metadata_value}

metadata_value-append :
    (key k v : String) (m : Metadata)
    → metadata_value key m ≡ none
    → metadata_value key (m ++ (k, v) ∷ []) ≡ (if k == key then some v else none)
unfolding metadata_value
metadata_value-append key k v [] h = refl
metadata_value-append key k v ((l, w) ∷ m) h = elim (Bool-cases (l == key)) [
  | inl s ↦ absurd (cc (rw s at h))
  | inr o ↦ rw o (metadata_value-append key k v m (rw o at h))
]

metadata_value-keep :
    (key : String) (m : Metadata)
    → metadata_value key (keep (λ entry. not (entry.0 == key)) m) ≡ none
unfolding metadata_value
metadata_value-keep key [] = refl
metadata_value-keep key ((l, w) ∷ m) = elim (Bool-cases (l == key)) [
  | inl s ↦ rw s (metadata_value-keep key m)
  | inr o ↦ rw o (rw o (metadata_value-keep key m))
]

-- A value that `_set_metadata_value` writes is the one that `_metadata_value` reads.
pub metadata_value-set_metadata_value :
    (key value : String) (m : Metadata)
    → metadata_value key (set_metadata_value key value m) ≡ some value
unfolding set_metadata_value
metadata_value-set_metadata_value key value m =
    metadata_value-append key key value (keep (λ entry. not (entry.0 == key)) m)
      (metadata_value-keep key m)
    ∙ if_true (key == key) (some value) none (==_refl key)

pub metadata_value-upsert :
    (key value : String) (m : Metadata)
    → metadata_value key (upsert_metadata key value m) ≡ some value
unfolding metadata_value upsert_metadata
metadata_value-upsert key value [] = if_true (key == key) (some value) none (==_refl key)
metadata_value-upsert key value ((k, v) ∷ m) = elim (Bool-cases (k == key)) [
  | inl s ↦ rw s (rw s refl)
  | inr o ↦ rw o (rw o (metadata_value-upsert key value m))
]

metadata_value-behind :
    (key k v : String) (m : Metadata)
    → (k == key) ≡ false
    → metadata_value key (m ++ (k, v) ∷ []) ≡ metadata_value key m
unfolding metadata_value
metadata_value-behind key k v [] h = if_false (k == key) (some v) none h
metadata_value-behind key k v ((l, w) ∷ m) h = elim (Bool-cases (l == key)) [
  | inl s ↦ rw s refl
  | inr o ↦ rw o (metadata_value-behind key k v m h)
]

metadata_value-without :
    (key k : String) (m : Metadata)
    → (k == key) ≡ false
    → metadata_value key (keep (λ entry. not (entry.0 == k)) m) ≡ metadata_value key m
unfolding metadata_value
metadata_value-without key k [] h = refl
metadata_value-without key k ((l, w) ∷ m) h = elim (Bool-cases (l == k)) [
  | inl s ↦
      let other : (l == key) ≡ false = subst (λ x. (x == key) ≡ false) (sym ((eq_iff l k).0 s)) h in
      rw (s, other) (metadata_value-without key k m h)
  | inr o ↦ elim (Bool-cases (l == key)) [
    | inl s ↦ rw (o, s) refl
    | inr n ↦ rw (o, n) (metadata_value-without key k m h)
  ]
]

-- The values of the other keys stay.
pub metadata_value-other :
    (key k v : String) (m : Metadata)
    → (k == key) ≡ false
    → metadata_value key (set_metadata_value k v m) ≡ metadata_value key m
unfolding set_metadata_value
metadata_value-other key k v m h =
    metadata_value-behind key k v (keep (λ entry. not (entry.0 == k)) m) h
    ∙ metadata_value-without key k m h
