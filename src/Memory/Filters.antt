-- ===== src/Memory/Filters.antt =====
-- The cascade of filters in `MemoryStore.query`, against the promise of `TelegramQuery`.
use knx_telegram_store.Prelude.{
  ℕ, Bool, true, false, not, ◌&&◌, ◌||◌, List, [], ◌∷◌, Option, none, some, arith, ◌≡◌, refl, ◌∙◌,
  ap, sym, leb, is_nonempty, contains, string_eq, nat_eq, option_eq,
}
use knx_telegram_store.Prelude.Keep.{keep, keep-keep, keep_congr}
use knx_telegram_store.Exceptions.{Result, ok, >>=-eq-ok, ok-injective, ◌>>=◌}
use knx_telegram_store.Model.{TimeBound, aware, naive, StoredTelegram}
use knx_telegram_store.Query.{TelegramQuery, AwareBound, IsAware}
use knx_telegram_store.Query.Matching.{matches, passes_dpt, not_before, not_after, any_dpt}
use knx_telegram_store.Memory.Select.{
  apply_filters, filter_if, dpt_match, any_pair, from_start, to_end, compare_naive,
}

keep-always : (xs : List StoredTelegram) → keep (λ t. true) xs ≡ xs
keep-always [] = refl
keep-always (x ∷ xs) = ap (◌∷◌ x) (keep-always xs)

filter_if-keep :
    (active : Bool) (p : StoredTelegram → Bool) (xs : List StoredTelegram)
    → filter_if active p xs ≡ keep (λ t. not active || p t) xs
filter_if-keep true p xs = refl
filter_if-keep false p xs = sym (keep-always xs)

compare_naive-empty :
    (p : StoredTelegram → Bool) (xs ys : List StoredTelegram)
    → compare_naive xs ≡ ok ys
    → ys ≡ keep p xs
compare_naive-empty p [] ys h = sym (ok-injective h)
compare_naive-empty p (x ∷ xs) ys h = absurd cc (h)

from_start-keep :
    (start : Option TimeBound) (xs ys : List StoredTelegram)
    → from_start start xs ≡ ok ys
    → ys ≡ keep (λ t. not_before start t.timestamp) xs
from_start-keep none xs ys h = sym (ok-injective h) ∙ sym (keep-always xs)
from_start-keep (some (aware start)) xs ys h = sym (ok-injective h)
from_start-keep (some (naive start)) xs ys h =
    compare_naive-empty (λ t. leb start t.timestamp) xs ys h

to_end-keep :
    (end : Option TimeBound) (xs ys : List StoredTelegram)
    → to_end end xs ≡ ok ys
    → ys ≡ keep (λ t. not_after end t.timestamp) xs
to_end-keep none xs ys h = sym (ok-injective h) ∙ sym (keep-always xs)
to_end-keep (some (aware end)) xs ys h = sym (ok-injective h)
to_end-keep (some (naive end)) xs ys h = compare_naive-empty (λ t. leb t.timestamp end) xs ys h

from_start-ok :
    (start : Option TimeBound) (xs : List StoredTelegram)
    → AwareBound start
    → (ys : List StoredTelegram) × (from_start start xs ≡ ok ys)
from_start-ok none xs a = (xs, refl)
from_start-ok (some (aware start)) xs a = (keep (λ t. leb start t.timestamp) xs, refl)
from_start-ok (some (naive start)) xs a = absurd a

to_end-ok :
    (end : Option TimeBound) (xs : List StoredTelegram)
    → AwareBound end
    → (ys : List StoredTelegram) × (to_end end xs ≡ ok ys)
to_end-ok none xs a = (xs, refl)
to_end-ok (some (aware end)) xs a = (keep (λ t. leb t.timestamp end) xs, refl)
to_end-ok (some (naive end)) xs a = absurd a

any_pair-any_dpt : (t : StoredTelegram) (ds : List (ℕ × Option ℕ)) → any_pair t ds ≡ any_dpt t ds
any_pair-any_dpt t [] = refl
any_pair-any_dpt t ((main, none) ∷ ds) = ground (arith, any_pair-any_dpt t ds)
any_pair-any_dpt t ((main, some sub) ∷ ds) = ground (arith, any_pair-any_dpt t ds)

dpt_category :
    (q : TelegramQuery) (t : StoredTelegram)
    → (not (is_nonempty q.dpt_mains || is_nonempty q.dpts) || dpt_match q t) ≡ passes_dpt q t
dpt_category q t = ground (arith, any_pair-any_dpt t q.dpts)

-- One more filter behind a list that is filtered already.
then_keep :
    (p q : StoredTelegram → Bool) {ys zs : List StoredTelegram} (xs : List StoredTelegram)
    → zs ≡ keep q ys
    → ys ≡ keep p xs
    → zs ≡ keep (λ t. p t && q t) xs
then_keep p q xs g h = g ∙ ap (keep q) h ∙ keep-keep p q xs

-- Filters that do not raise have kept exactly the telegrams that the query matches, in their order.
pub apply_filters-kept :
    (q : TelegramQuery) (xs ys : List StoredTelegram)
    → apply_filters q xs ≡ ok ys
    → ys ≡ keep (matches q) xs
unfolding apply_filters matches
apply_filters-kept q xs ys h =
    let (zs, started, ended) = >>=-eq-ok (from_start q.start_time _) (to_end q.end_time) h in
    let k1 = filter_if-keep (is_nonempty q.sources) (λ t. contains q.sources t.source) xs in
    let k2 =
      then_keep _ _ xs
        (filter_if-keep (is_nonempty q.destinations) (λ t. contains q.destinations t.destination) _)
        k1 in
    let k3 =
      then_keep _ _ xs
        (filter_if-keep (is_nonempty q.telegram_types)
          (λ t. contains q.telegram_types t.telegramtype) _)
        k2 in
    let k4 =
      then_keep _ _ xs
        (filter_if-keep (is_nonempty q.directions) (λ t. contains q.directions t.direction) _) k3 in
    let k5 =
      then_keep _ _ xs
        (filter_if-keep (is_nonempty q.dpt_mains || is_nonempty q.dpts) (dpt_match q) _) k4 in
    let k6 = then_keep _ _ xs (from_start-keep q.start_time _ zs started) k5 in
    let k7 = then_keep _ _ xs (to_end-keep q.end_time zs ys ended) k6 in
    k7 ∙ keep_congr _ (matches q) xs (λ t. rw dpt_category)

apply_filters-ok :
    (q : TelegramQuery) (xs : List StoredTelegram)
    → IsAware q
    → (ys : List StoredTelegram) × (apply_filters q xs ≡ ok ys)
unfolding apply_filters
apply_filters-ok q xs (start, end) =
    let (zs, e) = from_start-ok q.start_time _ start in
    let (ys, f) = to_end-ok q.end_time zs end in
    (ys, ap (λ (r : Result (List StoredTelegram)). r >>= to_end q.end_time) e ∙ f)

-- If the bounds of the time range are aware, the seven filters in a row do not raise, and they keep
-- exactly the telegrams that the query matches, in their order.
pub apply_filters-keep :
    (q : TelegramQuery) (xs : List StoredTelegram)
    → IsAware q
    → apply_filters q xs ≡ ok (keep (matches q) xs)
apply_filters-keep q xs a =
    let (ys, e) = apply_filters-ok q xs a in e ∙ ap ok (apply_filters-kept q xs ys e)
