-- ===== src/Memory/Order.antt =====
-- What a query of the memory store returns: which telegrams, in which order, and when it raises.
use mathlib.Core.List.{Perm}
use mathlib.Core.Path.{subst}
use knx_telegram_store.Prelude.{Bool, true, false, List, arith, ◌≡◌, refl, ◌==◌, nat_eq}
use knx_telegram_store.Prelude.Keep.{keep}
use knx_telegram_store.Prelude.Slices.{slice}
use knx_telegram_store.Prelude.Sorting.{
  sort, IsSorted, sort-IsSorted, sort-perm, sort_stable, take-IsSorted, drop-IsSorted,
}
use knx_telegram_store.Exceptions.{Result, ok, raise, >>=-eq-ok, ok-injective}
use knx_telegram_store.Model.{Time, StoredTelegram}
use knx_telegram_store.Query.{TelegramQuery, IsAware, TelegramQueryResult}
use knx_telegram_store.Query.Matching.{matches}
use knx_telegram_store.Store.{wrap_store_errors}
use knx_telegram_store.Memory.{MemoryStore, query, paginate}
use knx_telegram_store.Memory.Select.{apply_filters, expand_context, delta_active, select, in_order}
use knx_telegram_store.Memory.Filters.{apply_filters-keep}

pub in_order_total :
    (d : Bool) (a b : StoredTelegram) → in_order d a b ≡ false → in_order d b a ≡ true
in_order_total true a b h = ground arith
in_order_total false a b h = ground arith

pub in_order_trans :
    (d : Bool) (a b c : StoredTelegram)
    → in_order d a b ≡ true
    → in_order d b c ≡ true
    → in_order d a c ≡ true
in_order_trans true a b c h k = ground arith
in_order_trans false a b c h k = ground arith

pub select-IsSorted :
    (telegrams results : List StoredTelegram) (q : TelegramQuery)
    → select telegrams q ≡ ok results
    → IsSorted (in_order q.order_descending) results
unfolding select
select-IsSorted telegrams results q h =
    let (filtered, e, rest) = >>=-eq-ok (apply_filters q telegrams) _ h in
    let (expanded, f, done) = >>=-eq-ok (expand_context telegrams q filtered) _ rest in
    subst (IsSorted (in_order q.order_descending)) (ok-injective done)
      (sort-IsSorted (in_order q.order_descending) (in_order_total _) (in_order_trans _) expanded)

wrap_store_errors-eq-ok {ℓ} :
    {A : Type ℓ} (r : Result A) (a : A) → wrap_store_errors r ≡ ok a → r ≡ ok a
unfolding wrap_store_errors
wrap_store_errors-eq-ok (ok b) a h = h
wrap_store_errors-eq-ok (raise e) a h = ground arith

-- Every page that a query returns, of any offset and limit, has its telegrams in the order that the
-- query asks for: by falling timestamps if it is descending, else by rising ones.
pub query-IsSorted :
    (s : MemoryStore) (q : TelegramQuery) (r : TelegramQueryResult)
    → query s q ≡ ok r
    → IsSorted (in_order q.order_descending) r.telegrams
unfolding query paginate slice
query-IsSorted s q r h =
    let (results, e, done) = >>=-eq-ok (select s.telegrams q) _ (wrap_store_errors-eq-ok _ r h) in
    let order = in_order q.order_descending in
    subst (λ (p : TelegramQueryResult). IsSorted order p.telegrams) (ok-injective done)
      (take-IsSorted order _ _ (drop-IsSorted order _ _ (select-IsSorted s.telegrams results q e)))

-- What a query with no context window selects.
pub record Selects (q : TelegramQuery) (telegrams results : List StoredTelegram) : Type 0 where
  pub same_telegrams : Perm results (keep (matches q) telegrams)
  pub ordered : IsSorted (in_order q.order_descending) results
  pub stable :
      (x : Time)
      → keep (λ t. t.timestamp == x) results
        ≡ keep (λ t. t.timestamp == x) (keep (matches q) telegrams)

tied :
    (d : Bool) (x : Time) (a b : StoredTelegram)
    → (a.timestamp == x) ≡ true
    → (b.timestamp == x) ≡ true
    → in_order d a b ≡ true
tied true x a b h k = ground arith
tied false x a b h k = ground arith

-- With no context window, and with bounds of the time range that are aware, a query never raises: it returns a page of the telegrams that match the
-- filters, each as often as it is stored, in the order asked for, and those of one timestamp in the
-- order in which they were stored.
pub query-Selects :
    (s : MemoryStore) (q : TelegramQuery)
    → delta_active q ≡ false
    → IsAware q
    → (results : List StoredTelegram) × (query s q ≡ ok (paginate q results))
      × Selects q s.telegrams results
unfolding query select expand_context
query-Selects s q plain a =
    let order = in_order q.order_descending in
    let kept = keep (matches q) s.telegrams in
    (
      sort order kept,
      rw (apply_filters-keep q s.telegrams a, plain) refl,
      record {
        same_telegrams = sort-perm order kept;
        ordered = sort-IsSorted order (in_order_total _) (in_order_trans _) kept;
        stable = λ x. sort_stable order _ (tied q.order_descending x) kept;
      },
    )
