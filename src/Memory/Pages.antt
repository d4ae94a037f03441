-- ===== src/Memory/Pages.antt =====
-- Pagination: a client that asks for page after page as long as the limit is reached.
use knx_telegram_store.Prelude.{
  ℕ, zero, suc, ◌+◌, ◌-◌, ◌≤◌, ◌<◌, Bool, List, ◌++◌, Option, none, some, arith, ◌≡◌, refl, sym, ap,
  ◌∙◌, length, take, drop, ltb, if◌then◌else◌, Bool-cases, inl, inr, take-append-drop, drop-drop,
  take_all, length-drop, ltb→lt, ltb→le,
}
use mathlib.Core.Path.{ap₂}
use knx_telegram_store.Prelude.Int.{ℤ, pos, ◌+ℤ◌, ltb_ℤ}
use knx_telegram_store.Prelude.Slices.{slice}
use knx_telegram_store.Exceptions.{Result, ok, raise}
use knx_telegram_store.Model.{StoredTelegram}
use knx_telegram_store.Query.{TelegramQuery, TelegramQueryResult}
use knx_telegram_store.Memory.{MemoryStore, query, paginate}
use knx_telegram_store.Memory.Select.{select, apply_filters, expand_context}

-- The same query for another page.
abbrev pub at_page : TelegramQuery → ℕ → ℕ → TelegramQuery
at_page q start n = record q { offset = pos start; limit = pos n }

abbrev join : List StoredTelegram → Option (List StoredTelegram) → Option (List StoredTelegram)
join page none = none
join page (some more) = some (page ++ more)

abbrev after_page :
    Result TelegramQueryResult → Option (List StoredTelegram) → Option (List StoredTelegram)
after_page (raise e) rest = none
after_page (ok r) rest = if r.limit_reached then join r.telegrams rest else some r.telegrams

-- Every page but the first is asked for at the offset behind the page before; `none` if the fuel
-- runs out or a query raises.
unfoldable pub all_pages : ℕ → MemoryStore → TelegramQuery → ℕ → ℕ → Option (List StoredTelegram)
all_pages zero s q start n = none
all_pages (suc fuel) s q start n =
    let rest = all_pages fuel s q (start + n) n in after_page (query s (at_page q start n)) rest

pub pos_add : (a b : ℕ) → pos a +ℤ pos b ≡ pos (a + b)
pos_add a b = ground arith

ltb_ℤ_pos : (a b : ℕ) → ltb_ℤ (pos a) (pos b) ≡ ltb a b
ltb_ℤ_pos a b = ground arith

pub paginate-page :
    (q : TelegramQuery) (start n : ℕ) (xs : List StoredTelegram)
    → paginate (at_page q start n) xs ≡ record {
      telegrams = take n (drop start xs);
      total_count = length xs;
      limit_reached = ltb (start + n) (length xs);
    }
unfolding paginate slice
paginate-page q start n xs =
    let width : start + n - start ≡ n = omega arith in
    ap (λ (end : ℤ). result end) (pos_add start n)
    ∙ ap₂ (λ (k : ℕ) (b : Bool). page k b) width (ltb_ℤ_pos (start + n) (length xs))
  where
    result : ℤ → TelegramQueryResult
    result end = record {
      telegrams = slice (pos start) end xs;
      total_count = length xs;
      limit_reached = ltb_ℤ end (pos (length xs));
    }

    page : ℕ → Bool → TelegramQueryResult
    page k reached = record {
      telegrams = take k (drop start xs);
      total_count = length xs;
      limit_reached = reached;
    }

pub query-page :
    (s : MemoryStore) (q : TelegramQuery) (results : List StoredTelegram) (start n : ℕ)
    → select s.telegrams q ≡ ok results
    → query s (at_page q start n) ≡ ok (paginate (at_page q start n) results)
unfolding query select apply_filters expand_context
query-page s q results start n e = rw e refl

pub more-take-drop :
    (start n : ℕ) (xs : List StoredTelegram)
    → take n (drop start xs) ++ drop (start + n) xs ≡ drop start xs
more-take-drop start n xs =
    ap (λ rest. take n (drop start xs) ++ rest) (sym (drop-drop n start xs))
    ∙ take-append-drop n (drop start xs)

pub last_page :
    (start n : ℕ) (xs : List StoredTelegram)
    → length xs ≤ start + n
    → take n (drop start xs) ≡ drop start xs
last_page start n xs h = take_all n (drop start xs) (omega (arith, length-drop start xs))

-- If the query selects `results`, then page after page of a positive limit gives all of them, each
-- once and in order; one page more than there are telegrams is fuel enough.
pub all_pages-select :
    (s : MemoryStore) (q : TelegramQuery) (results : List StoredTelegram) (n : ℕ)
    → select s.telegrams q ≡ ok results
    → 0 < n
    → (fuel start : ℕ) → length results - start < fuel
    → all_pages fuel s q start n ≡ some (drop start results)
unfolding all_pages
all_pages-select s q results n e h zero start few = absurd (omega arith)
all_pages-select s q results n e h (suc fuel) start few =
    let rest = all_pages fuel s q (start + n) n in
    let here = query-page s q results start n e ∙ ap ok (paginate-page q start n results) in
    ap (λ r. after_page r rest) here ∙ elim (Bool-cases (ltb (start + n) (length results))) [
      | inl reached ↦
          let below = ltb→lt _ _ reached in
          let later = all_pages-select s q results n e h fuel (start + n) (omega arith) in
          rw reached (
            ap (join (take n (drop start results))) later
            ∙ ap some (more-take-drop start n results))
      | inr done ↦ rw done (ap some (last_page start n results (ltb→le _ _ done)))
    ]
