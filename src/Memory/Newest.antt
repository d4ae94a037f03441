-- ===== src/Memory/Newest.antt =====
-- `get_last_unique_telegrams`: one telegram for each destination, and none is newer.
use knx_telegram_store.Prelude.{
  ◌≤◌, ◌&&◌, String, List, [], ◌∷◌, map, Option, none, some, arith, ◌≡◌, ◌≢◌, refl, sym, ap, ◌∙◌,
  ◌⊎◌, inl, inr, ltb, In, if◌then◌else◌, ◌==◌, string_eq, Bool-cases,
}
use text.Mathlib.TextEquality.{eq_iff}
use knx_telegram_store.Model.{StoredTelegram}
use knx_telegram_store.Memory.Latest.{
  Dict, get, put, is_newer, update_latest, latest_loop, latest_of_each,
}

get-put :
    (k j : String) (v : StoredTelegram) (d : Dict)
    → get j (put k v d) ≡ (if k == j then some v else get j d)
unfolding get put
get-put k j v [] = refl
get-put k j v ((i, w) ∷ d) = ground (arith, eq_iff k j, eq_iff i k, eq_iff i j, get-put k j v d)

-- The loop as one destination sees it.
unfoldable newest_from :
    Option StoredTelegram → String → List StoredTelegram → Option StoredTelegram
newest_from current k [] = current
newest_from current k (t ∷ ts) =
    newest_from (if t.destination == k && is_newer t current then some t else current) k ts

update_at :
    (j k : String) (t : StoredTelegram) (d : Dict)
    → get k (if is_newer t (get j d) then put j t d else d)
      ≡ (if j == k && is_newer t (get k d) then some t else get k d)
update_at j k t d = ground (arith, eq_iff j k, get-put j k t d)

get-update_latest :
    (k : String) (d : Dict) (t : StoredTelegram)
    → get k (update_latest d t)
      ≡ (if t.destination == k && is_newer t (get k d) then some t else get k d)
unfolding update_latest
get-update_latest k d t = update_at t.destination k t d

get-latest_loop :
    (k : String) (d : Dict) (ts : List StoredTelegram)
    → get k (latest_loop d ts) ≡ newest_from (get k d) k ts
unfolding latest_loop newest_from
get-latest_loop k d [] = refl
get-latest_loop k d (t ∷ ts) =
    get-latest_loop k (update_latest d t) ts
    ∙ ap (λ c. newest_from c k ts) (get-update_latest k d t)

abbrev next_of : String → StoredTelegram → Option StoredTelegram → Option StoredTelegram
next_of k t current = if t.destination == k && is_newer t current then some t else current

next_of-keeps :
    (k : String) (t c : StoredTelegram)
    → (n : StoredTelegram) × (next_of k t (some c) ≡ some n) × (c.timestamp ≤ n.timestamp)
next_of-keeps k t c = elim (Bool-cases (t.destination == k && is_newer t (some c))) [
  | inl newer ↦ (t, rw newer, ground arith)
  | inr older ↦ (c, rw older, omega arith)
]

next_of-sees :
    (k : String) (t : StoredTelegram) (current : Option StoredTelegram)
    → t.destination ≡ k
    → (n : StoredTelegram) × (next_of k t current ≡ some n) × (t.timestamp ≤ n.timestamp)
next_of-sees k t none e = (t, ground (arith, eq_iff t.destination k), omega arith)
next_of-sees k t (some c) e = elim (Bool-cases (ltb c.timestamp t.timestamp)) [
  | inl newer ↦ (t, ground (arith, eq_iff t.destination k), omega arith)
  | inr older ↦ (c, ground (arith, eq_iff t.destination k), ground arith)
]

-- No later telegram of the destination, nor the one at hand, is newer than what comes out.
newest_from_bound :
    (current : Option StoredTelegram) (k : String) (ts : List StoredTelegram) (v : StoredTelegram)
    → newest_from current k ts ≡ some v
    → ((c : StoredTelegram) → current ≡ some c → c.timestamp ≤ v.timestamp)
      × ((u : StoredTelegram) → In u ts → u.destination ≡ k → u.timestamp ≤ v.timestamp)
unfolding newest_from
newest_from_bound current k [] v h = (λ c e. ground arith, λ u i. absurd i)
newest_from_bound current k (t ∷ ts) v h =
    let (at_hand, later) = newest_from_bound (next_of k t current) k ts v h in
    (
      λ c e.
          let (n, taken, le) = next_of-keeps k t c in
          omega (arith, le, at_hand n (ap (next_of k t) e ∙ taken)),
      λ u i e. elim i [
        | inl same ↦
            let (n, taken, le) =
              next_of-sees k t current (ap (λ (x : StoredTelegram). x.destination) same ∙ e) in
            omega (arith, at_hand n taken, le, ap (λ (x : StoredTelegram). x.timestamp) same)
        | inr j ↦ later u j e
      ],
    )

newest_from_source :
    (current : Option StoredTelegram) (k : String) (ts : List StoredTelegram) (v : StoredTelegram)
    → newest_from current k ts ≡ some v
    → (current ≡ some v) ⊎ (In v ts × (v.destination ≡ k))
unfolding newest_from
newest_from_source current k [] v h = inl h
newest_from_source current k (t ∷ ts) v h =
    elim (newest_from_source (next_of k t current) k ts v h) [
      | inr (i, e) ↦ inr (inr i, e)
      | inl taken ↦ elim (Bool-cases (t.destination == k && is_newer t current)) [
        | inl newer ↦
            let same : t ≡ v = cc (rw newer at taken) in
            inr (
              inl same,
              ap (λ (x : StoredTelegram). x.destination) (sym same)
                  ∙ (eq_iff t.destination k).0 (ground arith),
            )
        | inr older ↦ inl (rw older at taken)
      ]
    ]

newest_from_held :
    (c : StoredTelegram) (k : String) (ts : List StoredTelegram)
    → (v : StoredTelegram) × (newest_from (some c) k ts ≡ some v)
unfolding newest_from
newest_from_held c k [] = (c, refl)
newest_from_held c k (t ∷ ts) =
    let (n, taken, _) = next_of-keeps k t c in
    let (v, e) = newest_from_held n k ts in (v, ap (λ o. newest_from o k ts) taken ∙ e)

newest_from_found :
    (current : Option StoredTelegram) (k : String) (ts : List StoredTelegram) (u : StoredTelegram)
    → In u ts
    → u.destination ≡ k
    → (v : StoredTelegram) × (newest_from current k ts ≡ some v)
unfolding newest_from
newest_from_found current k [] u i e = absurd i
newest_from_found current k (t ∷ ts) u (inr j) e =
    newest_from_found (next_of k t current) k ts u j e
newest_from_found current k (t ∷ ts) u (inl same) e =
    let (n, taken, _) =
      next_of-sees k t current (ap (λ (x : StoredTelegram). x.destination) same ∙ e) in
    let (v, r) = newest_from_held n k ts in (v, ap (λ o. newest_from o k ts) taken ∙ r)

-- Each key once, and each telegram under its own destination.
abbrev IsKeyed : Dict → Type 0
IsKeyed [] = Unit
IsKeyed ((k, v) ∷ d) = (v.destination ≡ k) × (get k d ≡ none) × IsKeyed d

put-IsKeyed : (t : StoredTelegram) (d : Dict) → IsKeyed d → IsKeyed (put t.destination t d)
unfolding get put
put-IsKeyed t [] h = (refl, refl, tt)
put-IsKeyed t ((k, v) ∷ d) h = elim (Bool-cases (k == t.destination)) [
  | inl same ↦ rw same (sym ((eq_iff k t.destination).0 same), h.1, h.2)
  | inr other ↦ rw other (
    h.0,
    ground (arith, get-put t.destination k t d, eq_iff t.destination k, eq_iff k t.destination),
    put-IsKeyed t d h.2,
  )
]

latest_loop-IsKeyed : (d : Dict) (ts : List StoredTelegram) → IsKeyed d → IsKeyed (latest_loop d ts)
unfolding latest_loop update_latest
latest_loop-IsKeyed d [] h = h
latest_loop-IsKeyed d (t ∷ ts) h =
    latest_loop-IsKeyed (update_latest d t) ts
      (elim (Bool-cases (is_newer t (get t.destination d))) [
        | inl newer ↦ rw newer (put-IsKeyed t d h)
        | inr older ↦ rw older h
      ])

abbrev values : Dict → List StoredTelegram
values = map (λ e. e.1)

IsKeyed-get :
    (d : Dict) (v : StoredTelegram) → IsKeyed d → In v (values d) → get v.destination d ≡ some v
unfolding get
IsKeyed-get [] v h i = absurd i
IsKeyed-get ((k, w) ∷ d) v h (inl same) =
    let here : k ≡ v.destination = sym h.0 ∙ ap (λ (x : StoredTelegram). x.destination) same in
    rw ((eq_iff k v.destination).1 here) (ap some same)
IsKeyed-get ((k, w) ∷ d) v h (inr i) =
    let below = IsKeyed-get d v h.2 i in
    elim (Bool-cases (k == v.destination)) [
      | inl same ↦
          let here = ap (λ j. get j d) ((eq_iff k v.destination).0 same) in
          absurd (cc (h.1, here, below))
      | inr other ↦ rw other below
    ]

get-In : (d : Dict) (k : String) (v : StoredTelegram) → get k d ≡ some v → In v (values d)
unfolding get
get-In [] k v h = cc
get-In ((j, w) ∷ d) k v h = elim (Bool-cases (j == k)) [
  | inl same ↦ inl (cc (rw same at h))
  | inr other ↦ inr (get-In d k v (rw other at h))
]

abbrev pub OncePerDestination : List StoredTelegram → Type 0
OncePerDestination [] = Unit
OncePerDestination (t ∷ ts) =
    ((u : StoredTelegram) → In u ts → u.destination ≢ t.destination) × OncePerDestination ts

IsKeyed-OncePerDestination : (d : Dict) → IsKeyed d → OncePerDestination (values d)
IsKeyed-OncePerDestination [] h = tt
IsKeyed-OncePerDestination ((k, v) ∷ d) h = (
  λ u i e.
      let below = IsKeyed-get d u h.2 i in
      let here = ap (λ j. get j d) (e ∙ h.0) in cc (h.1, here, below),
  IsKeyed-OncePerDestination d h.2,
)

pub record IsLatest (telegrams results : List StoredTelegram) : Type 0 where
  pub stored : (t : StoredTelegram) → In t results → In t telegrams
  pub newest :
      (t u : StoredTelegram)
      → In t results
      → In u telegrams
      → u.destination ≡ t.destination
      → u.timestamp ≤ t.timestamp
  pub complete :
      (u : StoredTelegram)
      → In u telegrams
      → (t : StoredTelegram) × In t results × (t.destination ≡ u.destination)
  pub once : OncePerDestination results

final_dict :
    (ts : List StoredTelegram) (k : String) → get k (latest_loop [] ts) ≡ newest_from none k ts
unfolding get
final_dict ts k = get-latest_loop k [] ts

-- The telegrams returned are stored ones, one for each destination that any stored telegram has and
-- no second one, and no stored telegram of the same destination is newer.
pub latest_of_each-IsLatest :
    (telegrams : List StoredTelegram) → IsLatest telegrams (latest_of_each telegrams)
unfolding latest_of_each
latest_of_each-IsLatest ts =
    let d = latest_loop [] ts in
    let keyed = latest_loop-IsKeyed [] ts tt in
    let held = λ (t : StoredTelegram) (i : In t (values d)).
      sym (final_dict ts t.destination) ∙ IsKeyed-get d t keyed i in
    record {
      stored = λ t i. elim (newest_from_source none t.destination ts t (held t i)) [
        | inl e ↦ absurd (cc e)
        | inr m ↦ m.0
      ];
      newest = λ t u i j e. (newest_from_bound none t.destination ts t (held t i)).1 u j e;
      complete = λ u j.
          let (v, e) = newest_from_found none u.destination ts u j refl in
          (
            v,
            get-In d u.destination v (final_dict ts u.destination ∙ e),
            elim (newest_from_source none u.destination ts v e) [
              | inl absent ↦ absurd (cc absent)
              | inr m ↦ m.1
            ],
          );
      once = IsKeyed-OncePerDestination d keyed;
    }
