-- ===== src/Mcp/Paging.antt =====
-- What a client of `query_telegrams` gets that follows `next_offset` through a memory store.
use knx_telegram_store.Prelude.{
  ℕ, zero, suc, ◌+◌, ◌-◌, ◌≤◌, ◌<◌, List, ◌++◌, map, Option, none, some, ◌≡◌, refl, ap, sym, ◌∙◌,
  arith, length, take, drop, ltb, ltb→lt, ltb→le, Bool-cases, inl, inr,
}
use mathlib.Core.List.{map-append}
use knx_telegram_store.Prelude.Int.{ℤ, pos}
use knx_telegram_store.Exceptions.{Result, ok, raise, >>=-eq-ok, ok-injective}
use knx_telegram_store.Model.{StoredTelegram}
use knx_telegram_store.Query.{TelegramQuery}
use knx_telegram_store.Memory
use knx_telegram_store.Memory.{MemoryStore, paginate}
use knx_telegram_store.Memory.Select.{select}
use knx_telegram_store.Memory.Pages.{
  at_page, paginate-page, query-page, more-take-drop, last_page, pos_add,
}
use knx_telegram_store.Mcp.Types.{QueryTelegramsInput, QueryTelegramsResult, TelegramSummary}
use knx_telegram_store.Mcp.Text.{codes, parse_dpt}
use knx_telegram_store.Mcp.Tools.{
  StoreView, Conversions, validate_pagination, parse_dt, to_query, map_result, summarize, answer,
  query_telegrams,
}

-- A memory store as the tools see it.
abbrev pub of_memory : MemoryStore → StoreView
of_memory s = record {
  query = Memory.query s;
  get_last_unique_telegrams = ok (Memory.get_last_unique_telegrams s);
  get_stats = ok (Memory.get_stats s);
  capabilities = Memory.capabilities s;
  count = ok (Memory.count s);
}

abbrev join : List TelegramSummary → Option (List TelegramSummary) → Option (List TelegramSummary)
join page none = none
join page (some more) = some (page ++ more)

abbrev after_page :
    List TelegramSummary
    → Option ℤ
    → (ℤ → Option (List TelegramSummary))
    → Option (List TelegramSummary)
after_page page none rest = some page
after_page page (some next) rest = join page (rest next)

abbrev after_answer :
    Result QueryTelegramsResult
    → (ℤ → Option (List TelegramSummary))
    → Option (List TelegramSummary)
after_answer (raise e) rest = none
after_answer (ok r) rest = after_page r.telegrams r.next_offset rest

abbrev pub at_input : QueryTelegramsInput → ℤ → ℕ → QueryTelegramsInput
at_input input start n = record input { offset = start; limit = pos n }

module _ (py : Conversions) where
  -- Asks for page after page, each at the `next_offset` of the one before; `none` if the fuel runs
  -- out or a call raises.
  unfoldable pub follow :
      ℕ → StoreView → QueryTelegramsInput → ℕ → ℤ → Option (List TelegramSummary)
  unfolding query_telegrams
  follow zero store input n start = none
  follow (suc fuel) store input n start =
      after_answer (query_telegrams py store (at_input input start n)) (follow fuel store input n)

  -- The query does not depend on which page is asked for but in its offset and its limit.
  to_query-at_input :
      (input : QueryTelegramsInput) (q : TelegramQuery) (start n : ℕ)
      → to_query py input ≡ ok q
      → to_query py (at_input input (pos start) n) ≡ ok (at_page q start n)
  unfolding to_query
  to_query-at_input input q start n h =
      let (dpts, e1, h1) =
        >>=-eq-ok (map_result (λ d. parse_dpt py.digit (codes d)) input.dpts) _ h in
      let (from, e2, h2) = >>=-eq-ok (parse_dt py input.start_time) _ h1 in
      let (to, e3, h3) = >>=-eq-ok (parse_dt py input.end_time) _ h2 in
      rw (e1, e2, e3) (ap (λ (p : TelegramQuery). ok (at_page p start n)) (ok-injective h3))

  validated :
      (input : QueryTelegramsInput) (start n : ℕ)
      → 0 < n
      → n ≤ 1000
      → validate_pagination (at_input input (pos start) n) ≡ ok tt
  unfolding validate_pagination
  validated input start n positive small = ground arith

  -- One call of the tool, at an offset and a limit within its bounds.
  query_telegrams-page :
      (s : MemoryStore) (input : QueryTelegramsInput) (q : TelegramQuery)
      (results : List StoredTelegram) (start n : ℕ)
      → to_query py input ≡ ok q
      → select s.telegrams q ≡ ok results
      → 0 < n
      → n ≤ 1000
      → query_telegrams py (of_memory s) (at_input input (pos start) n)
        ≡ ok (
            answer py (at_input input (pos start) n) (record {
              telegrams = take n (drop start results);
              total_count = length results;
              limit_reached = ltb (start + n) (length results);
            }))
  unfolding query_telegrams
  query_telegrams-page s input q results start n e selected positive small =
      let paged =
        query-page s q results start n selected ∙ ap ok (paginate-page q start n results) in
      rw (validated input start n positive small, to_query-at_input input q start n e, paged) refl

  -- A client of a memory store that asks for pages of one limit from 1 to 1000, the first at an
  -- offset of its choice and each next one at the `next_offset` of the answer before, gets the
  -- summaries of all selected telegrams from that offset on, each once and in their order, and it
  -- gets to an end: one round more than there are telegrams left is enough. The conditions are that
  -- the input can be parsed and that the query it stands for does not raise: no overflow, and no
  -- time without an offset that is compared.
  pub follow-select :
      (s : MemoryStore) (input : QueryTelegramsInput) (q : TelegramQuery)
      (results : List StoredTelegram) (n : ℕ)
      → to_query py input ≡ ok q
      → select s.telegrams q ≡ ok results
      → 0 < n
      → n ≤ 1000
      → (fuel start : ℕ) → length results - start < fuel
      → follow fuel (of_memory s) input n (pos start)
        ≡ some (map (summarize py) (drop start results))
  unfolding follow
  follow-select s input q results n e selected positive small zero start few = absurd (omega arith)
  follow-select s input q results n e selected positive small (suc fuel) start few =
      let rest = follow fuel (of_memory s) input n in
      let here = query_telegrams-page s input q results start n e selected positive small in
      let page = take n (drop start results) in
      ap (λ r. after_answer r rest) here ∙ elim (Bool-cases (ltb (start + n) (length results))) [
        | inl reached ↦
            let below = ltb→lt _ _ reached in
            let later =
              ap rest (pos_add start n)
              ∙ follow-select s input q results n e selected positive small fuel (start + n)
                  (omega arith) in
            rw reached (
              ap (join (map (summarize py) page)) later
              ∙ ap some (
                  sym (map-append (summarize py) page (drop (start + n) results))
                  ∙ ap (map (summarize py)) (more-take-drop start n results)))
        | inr done ↦
            rw done (
              ap (λ xs. some (map (summarize py) xs)) (last_page start n results (ltb→le _ _ done)))
      ]
