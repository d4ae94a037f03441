-- ===== src/Mcp/Validation.antt =====
-- Which inputs `query_telegrams` refuses before it asks the store.
use knx_telegram_store.Prelude.{
  ℕ, ◌≤◌, ◌<◌, Bool, false, not, ◌&&◌, ◌≡◌, refl, arith, if_ind, ◌⊎◌, inl, inr,
}
use knx_telegram_store.Prelude.Int.{ℤ, pos, negsuc, leb_ℤ, ltb_ℤ}
use knx_telegram_store.Exceptions.{Result, ok, raise, fresh, value_error}
use knx_telegram_store.Mcp.Types.{QueryTelegramsInput}
use knx_telegram_store.Mcp.Tools.{StoreView, Conversions, validate_pagination, query_telegrams}

-- A page of 1 to 1000 telegrams at an offset that is not negative.
pub record IsPage (limit offset : ℤ) : Type 0 where
  pub size : ℕ
  pub start : ℕ
  pub limit_is : limit ≡ pos size
  pub offset_is : offset ≡ pos start
  pub not_empty : 0 < size
  pub not_large : size ≤ 1000

abbrev beyond : ℤ → Bool
beyond limit = not (leb_ℤ (pos 1) limit && leb_ℤ limit (pos 1000))

in_bounds-IsPage :
    (limit offset : ℤ) → beyond limit ≡ false → ltb_ℤ offset (pos 0) ≡ false → IsPage limit offset
in_bounds-IsPage (pos n) (pos k) h e = record {
  size = n;
  start = k;
  limit_is = refl;
  offset_is = refl;
  not_empty = ground arith;
  not_large = ground arith;
}
in_bounds-IsPage (pos n) (negsuc k) h e = absurd (ground arith)
in_bounds-IsPage (negsuc n) offset h e = absurd (ground arith)

-- The input is a page, or it is refused.
abbrev Judged : QueryTelegramsInput → Result (Unit {0}) → Type 0
Judged input r = ((r ≡ ok tt) × IsPage input.limit input.offset) ⊎ (r ≡ raise (fresh value_error))

validate_pagination-Judged :
    (input : QueryTelegramsInput) → Judged input (validate_pagination input)
unfolding validate_pagination
validate_pagination-Judged input =
    if_ind (Judged input) (beyond input.limit) (λ _. inr refl)
      λ h.
        if_ind (Judged input) (ltb_ℤ input.offset (pos 0)) (λ _. inr refl)
          (λ e. inl (refl, in_bounds-IsPage input.limit input.offset h e))

-- Either the input asks for a page of 1 to 1000 telegrams at an offset that is not negative, or the
-- tool raises ValueError, whatever the store would answer.
pub query_telegrams-IsPage :
    (py : Conversions) (store : StoreView) (input : QueryTelegramsInput)
    → IsPage input.limit input.offset ⊎ (query_telegrams py store input ≡ raise (fresh value_error))
unfolding query_telegrams
query_telegrams-IsPage py store input = elim (validate_pagination-Judged input) [
  | inl (checked, page) ↦ inl page
  | inr refused ↦ inr (rw refused refl)
]
