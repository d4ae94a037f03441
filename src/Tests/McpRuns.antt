-- ===== src/Tests/McpRuns.antt =====
-- The tools on the memory store of the samples.
use Prim.Native.Nat.{◌-◌}
use knx_telegram_store.Prelude.{
  ℕ, ◌+◌, ◌<◌, ◌&&◌, List, [], ◌∷◌, map, Option, none, some, ◌≡◌, refl, ◌⊎◌, arith, leb,
  if◌then◌else◌, drop, ◌==◌, string_eq,
}
use knx_telegram_store.Prelude.Int.{pos}
use knx_telegram_store.Exceptions.{ok, raise, fresh, value_error}
use knx_telegram_store.Model.{naive}
use knx_telegram_store.Memory.Select.{select}
use knx_telegram_store.Mcp.Types.{QueryTelegramsInput, default_input}
use knx_telegram_store.Mcp.Text.{codes, normalize_type, parse_dpt, format_dpt}
use knx_telegram_store.Mcp.Tools.{Conversions, to_query, summarize, query_telegrams}
use knx_telegram_store.Mcp.Paging.{of_memory, follow, follow-select}
use knx_telegram_store.Mcp.Validation.{IsPage, query_telegrams-IsPage}
use knx_telegram_store.Mcp.Dpt.{parse_dpt-format_dpt}
use knx_telegram_store.Tests.Samples.{early, middle, late, samples, memory, with_context}

abbrev ascii_digit : ℕ → Option ℕ
ascii_digit c = if leb 48 c && leb c 57 then some (c - 48) else none

ascii_digit-digit : (d : ℕ) → d < 10 → ascii_digit (48 + d) ≡ some d
ascii_digit-digit d h = ground arith

abbrev py : Conversions
py = record {
  fromisoformat = λ s. if s == "1970" then some (naive 5) else none;
  isoformat = λ t. "a time";
  digit = ascii_digit;
}

abbrev to_first : QueryTelegramsInput
to_first = record default_input { destinations = "1/1/1" ∷ []; delta_after_ms = pos 1000 }

type_alias : normalize_type " Write" ≡ "GroupValueWrite"
unfolding normalize_type
type_alias = refl

full_type : normalize_type "GroupValueRead" ≡ "GroupValueRead"
unfolding normalize_type
full_type = refl

temperature : parse_dpt ascii_digit (codes " 9.001 ") ≡ ok (9, some 1)
unfolding parse_dpt
temperature = refl

no_dpt : parse_dpt ascii_digit (codes "9.") ≡ raise (fresh value_error)
unfolding parse_dpt
no_dpt = refl

formatted : format_dpt (some 9) (some 1) ≡ some (codes "9.001")
unfolding format_dpt
formatted = refl

to_first_query : to_query py to_first ≡ ok (record with_context { limit = pos 100 })
unfolding to_query
to_first_query = refl

selected :
    select samples (record with_context { limit = pos 100 }) ≡ ok (late ∷ middle ∷ early ∷ [])
unfolding select
selected = refl

follow-select_example :
    follow py 4 (of_memory memory) to_first 1 (pos 0)
    ≡ some (map (summarize py) (drop 0 (late ∷ middle ∷ early ∷ [])))
follow-select_example =
    follow-select py memory to_first (record with_context { limit = pos 100 })
      (late ∷ middle ∷ early ∷ []) 1 to_first_query selected (omega arith) (omega arith) 4 0
      (omega arith)

abbrev too_many : QueryTelegramsInput
too_many = record default_input { limit = pos 1001 }

query_telegrams-IsPage_example :
    IsPage too_many.limit too_many.offset
    ⊎ (query_telegrams py (of_memory memory) too_many ≡ raise (fresh value_error))
query_telegrams-IsPage_example = query_telegrams-IsPage py (of_memory memory) too_many

parse_dpt-format_dpt_example :
    (text : List ℕ) × (format_dpt (some 14) (some 56) ≡ some text)
    × (parse_dpt ascii_digit text ≡ ok (14, some 56))
unfolding knx_telegram_store.Mcp.Text.decimal
parse_dpt-format_dpt_example =
    parse_dpt-format_dpt ascii_digit ascii_digit-digit 14 (some 56) (omega arith) (omega arith)
