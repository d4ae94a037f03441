-- ===== src/Memory/Overflow.antt =====
-- When a query of the memory store raises, and what.
use knx_telegram_store.Prelude.{
  List, [], ◌∷◌, arith, ◌≡◌, refl, sym, Option, none, some, ◌⊎◌, inl, inr, Bool-cases,
}
use knx_telegram_store.Prelude.Int.{ℤ, pos, negsuc, neg_ℤ}
use knx_telegram_store.Exceptions.{
  PyException, Result, ok, raise, fresh, ◌>>=◌, overflow_error, type_error,
  knx_telegram_store_exception, raised_from,
}
use knx_telegram_store.Model.{Time, TimeBound, aware, naive, Timedelta, StoredTelegram}
use knx_telegram_store.Query.{TelegramQuery, AwareBound, IsAware}
use knx_telegram_store.Store.{wrap_store_errors}
use knx_telegram_store.Memory.{MemoryStore, query, paginate}
use knx_telegram_store.Memory.Times.{milliseconds, plus, minus}
use knx_telegram_store.Memory.Select.{
  collect_context, expand_context, delta_active, select, apply_filters, compare_naive, from_start,
  to_end,
}
use mathlib.Core.Path.{subst}

-- The only exceptions that the computation raises are an overflow and, if `N` holds, a TypeError.
abbrev Raises {ℓ} : Type 0 → {A : Type ℓ} → Result A → Type 0
Raises N (ok a) = Unit
Raises N (raise e) = (e ≡ fresh overflow_error) ⊎ ((e ≡ fresh type_error) × N)

-- The only exception that the computation raises is an overflow.
abbrev Overflows {ℓ} : {A : Type ℓ} → Result A → Type 0
Overflows (ok a) = Unit
Overflows (raise e) = e ≡ fresh overflow_error

Raises-bind {ℓ κ} :
    (N : Type 0) {A : Type ℓ} {B : Type κ} (r : Result A) (f : A → Result B)
    → Raises N r
    → ((a : A) → Raises N (f a))
    → Raises N (r >>= f)
Raises-bind N (ok a) f h k = k a
Raises-bind N (raise e) f h k = h

Overflows-Raises {ℓ} : (N : Type 0) {A : Type ℓ} (r : Result A) → Overflows r → Raises N r
Overflows-Raises N (ok a) h = tt
Overflows-Raises N (raise e) h = inl h

Overflows-bind {ℓ κ} :
    {A : Type ℓ} {B : Type κ} (r : Result A) (f : A → Result B)
    → Overflows r
    → ((a : A) → Overflows (f a))
    → Overflows (r >>= f)
Overflows-bind (ok a) f h k = k a
Overflows-bind (raise e) f h k = h

milliseconds-Overflows : (ms : ℤ) → Overflows (milliseconds ms)
unfolding milliseconds
milliseconds-Overflows (pos n) = ground arith
milliseconds-Overflows (negsuc n) = ground arith

plus-Overflows : (t : Time) (d : Timedelta) → Overflows (plus t d)
unfolding plus
plus-Overflows t (pos n) = ground arith
plus-Overflows t (negsuc n) = ground arith

minus-Overflows : (t : Time) (d : Timedelta) → Overflows (minus t d)
unfolding minus
minus-Overflows t d = plus-Overflows t (neg_ℤ d)

collect_context-Overflows :
    (pivots : List Time) (before after : Timedelta) (ts : List StoredTelegram)
    → Overflows (collect_context pivots before after ts)
unfolding collect_context
collect_context-Overflows pivots before after [] = tt
collect_context-Overflows pivots before after (t ∷ ts) =
    Overflows-bind (minus t.timestamp after) _ (minus-Overflows t.timestamp after) λ low.
      Overflows-bind (plus t.timestamp before) _ (plus-Overflows t.timestamp before) λ high.
        Overflows-bind (collect_context pivots before after ts) _
          (collect_context-Overflows pivots before after ts) λ context. tt

expand_context-Overflows :
    (telegrams results : List StoredTelegram) (q : TelegramQuery)
    → Overflows (expand_context telegrams q results)
unfolding expand_context
expand_context-Overflows telegrams results q = elim (Bool-cases (delta_active q)) [
  | inl active ↦ rw active (
      Overflows-bind (milliseconds q.delta_before_ms) _ (milliseconds-Overflows q.delta_before_ms)
        λ before.
          Overflows-bind (milliseconds q.delta_after_ms) _ (milliseconds-Overflows q.delta_after_ms)
            λ after. collect_context-Overflows _ before after telegrams)
  | inr plain ↦ rw plain tt
]

compare_naive-Raises : (N : Type 0) → N → (xs : List StoredTelegram) → Raises N (compare_naive xs)
compare_naive-Raises N n [] = tt
compare_naive-Raises N n (x ∷ xs) = inr (refl, n)

module _ (telegrams : List StoredTelegram) (q : TelegramQuery) where
  abbrev Naive : Type 0
  Naive = ¬ (IsAware q)

  from_start-Raises :
      (start : Option TimeBound)
      → (¬ (AwareBound start) → Naive)
      → (xs : List StoredTelegram) → Raises Naive (from_start start xs)
  from_start-Raises none n xs = tt
  from_start-Raises (some (aware t)) n xs = tt
  from_start-Raises (some (naive t)) n xs = compare_naive-Raises Naive (n (λ a. a)) xs

  to_end-Raises :
      (end : Option TimeBound)
      → (¬ (AwareBound end) → Naive)
      → (xs : List StoredTelegram) → Raises Naive (to_end end xs)
  to_end-Raises none n xs = tt
  to_end-Raises (some (aware t)) n xs = tt
  to_end-Raises (some (naive t)) n xs = compare_naive-Raises Naive (n (λ a. a)) xs

  apply_filters-Raises : Raises Naive (apply_filters q telegrams)
  unfolding apply_filters
  apply_filters-Raises =
      Raises-bind Naive (from_start q.start_time _) (to_end q.end_time)
        (from_start-Raises q.start_time (λ n a. n a.0) _) (to_end-Raises q.end_time (λ n a. n a.1))

  select-Raises : Raises Naive (select telegrams q)
  unfolding select
  select-Raises = Raises-bind Naive (apply_filters q telegrams) _ apply_filters-Raises λ filtered.
      Raises-bind Naive (expand_context telegrams q filtered) _
        (Overflows-Raises Naive _ (expand_context-Overflows telegrams filtered q)) (λ r. tt)

raise-injective {ℓ} :
    {A : Type ℓ} {d e : PyException} → ◌≡◌ {A = Result A} (raise d) (raise e) → d ≡ e
raise-injective h = cc

-- What a query may raise: an overflow, or a TypeError if a bound is naive.
abbrev pub Raised : TelegramQuery → PyException → Type 0
Raised q e =
    (e ≡ raised_from knx_telegram_store_exception (fresh overflow_error))
    ⊎ ((e ≡ raised_from knx_telegram_store_exception (fresh type_error)) × (¬ (IsAware q)))

wrapped-Raised {ℓ} :
    {A : Type ℓ} (q : TelegramQuery) (r : Result A) (e : PyException)
    → Raises (¬ (IsAware q)) r
    → wrap_store_errors r ≡ raise e
    → Raised q e
unfolding wrap_store_errors
wrapped-Raised q (ok a) e h w = absurd cc (w)
wrapped-Raised {A} q (raise d) e (inl h) w =
    inl (
      sym
        (raise-injective {A = A} (subst (λ x. wrap_store_errors {A = A} (raise x) ≡ raise e) h w)))
wrapped-Raised {A} q (raise d) e (inr (h, n)) w = inr (
  sym (raise-injective {A = A} (subst (λ x. wrap_store_errors {A = A} (raise x) ≡ raise e) h w)),
  n,
)

-- A query raises nothing but a KnxTelegramStoreException that was caused by an OverflowError, for a
-- window that `datetime` cannot hold, or by a TypeError, and by this one only if a bound of its time
-- range is naive.
pub query-overflow :
    (s : MemoryStore) (q : TelegramQuery) (e : PyException) → query s q ≡ raise e → Raised q e
unfolding query
query-overflow s q e h =
    let paged = λ (results : List StoredTelegram). ok (paginate q results) in
    wrapped-Raised q (select s.telegrams q >>= paged) e
      (Raises-bind (¬ (IsAware q)) (select s.telegrams q) paged (select-Raises s.telegrams q)
        (λ r. tt))
      h
