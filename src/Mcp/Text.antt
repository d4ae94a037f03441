-- ===== src/Mcp/Text.antt =====
-- The texts that the tools of mcp/tools.py take apart: by their code points.
use Prim.Native.Char.{code}
use knx_telegram_store.Prelude.{
  ℕ, zero, suc, ◌+◌, ◌*◌, ◌/◌, ◌%◌, Bool, true, false, not, ◌&&◌, ◌||◌, String, List, [], ◌∷◌, ◌++◌,
  map, Option, none, some, ltb, leb, ◌==◌, nat_eq, if◌then◌else◌, is_nonempty, length,
}
use knx_telegram_store.Exceptions.{Result, ok, raise_new, value_error, ◌>>=◌}

abbrev pub codes : String → List ℕ
codes String.[] = []
codes (String.◌∷◌ c s) = code c ∷ codes s

abbrev pub same_codes : List ℕ → List ℕ → Bool
same_codes [] [] = true
same_codes (a ∷ xs) (b ∷ ys) = a == b && same_codes xs ys
same_codes _ _ = false

-- `str.isspace` of one character.
abbrev pub is_space : ℕ → Bool
is_space c =
    (leb 9 c && leb c 13)
    || (leb 28 c && leb c 32)
    || c == 133
    || c == 160
    || c == 5760
    || (leb 8192 c && leb c 8202)
    || c == 8232
    || c == 8233
    || c == 8239
    || c == 8287
    || c == 12288

unfoldable pub lstrip : List ℕ → List ℕ
lstrip [] = []
lstrip (c ∷ cs) = let rest = lstrip cs in if is_space c then rest else c ∷ cs

unfoldable pub rstrip : List ℕ → List ℕ
rstrip [] = []
rstrip (c ∷ cs) =
    let rest = rstrip cs in if is_space c && not (is_nonempty rest) then [] else c ∷ rest

-- `str.strip()`
abbrev pub strip : List ℕ → List ℕ
strip cs = rstrip (lstrip cs)

-- `str.lower()` as far as a comparison with the lower-case ASCII letters of the aliases sees it: no
-- other character lowers to one of their letters alone.
abbrev pub lower : ℕ → ℕ
lower c = if leb b'A' c && leb c b'Z' then c + 32 else c

-- `_normalize_type`
unfoldable pub normalize_type : String → String
unfolding lstrip rstrip
normalize_type telegram_type =
    let key = map lower (strip (codes telegram_type)) in
    if same_codes key (codes "write")
    then "GroupValueWrite"
    else if same_codes key (codes "read")
    then "GroupValueRead"
    else if same_codes key (codes "response")
    then "GroupValueResponse"
    else telegram_type

-- `str.partition(".")`: what stands before the first dot, and what stands behind it, if there is one.
unfoldable pub partition : List ℕ → List ℕ × Option (List ℕ)
partition [] = ([], none)
partition (c ∷ cs) =
    let (before, after) = partition cs in if c == b'.' then ([], some cs) else (c ∷ before, after)

abbrev pub with_digit : Option ℕ → (ℕ → Option ℕ) → Option ℕ
with_digit none f = none
with_digit (some d) f = f d

-- The number that digits spell; `digit` is the decimal digit of a character, by Unicode's tables.
unfoldable pub spelled : (ℕ → Option ℕ) → ℕ → List ℕ → Option ℕ
spelled digit n [] = some n
spelled digit n (c ∷ cs) = with_digit (digit c) (λ d. spelled digit (n * 10 + d) cs)

-- `int` of a text that `isdigit` accepted, or the ValueError: of an empty text, of a character
-- that is no decimal digit, and of more digits than Python converts.
unfoldable pub to_int : (ℕ → Option ℕ) → List ℕ → Result ℕ
unfolding spelled
to_int digit cs =
    if not (is_nonempty cs) || ltb 4300 (length cs)
    then raise_new value_error
    else elim (spelled digit 0 cs) [ none ↦ raise_new value_error | some n ↦ ok n ]

unfoldable pub to_sub : (ℕ → Option ℕ) → Option (List ℕ) → Result (Option ℕ)
unfolding to_int
to_sub digit none = ok none
to_sub digit (some cs) = do n ← to_int digit cs; ok (some n)

-- `_parse_dpt`: its own ValueError and that of `int` are one class.
unfoldable pub parse_dpt : (ℕ → Option ℕ) → List ℕ → Result (ℕ × Option ℕ)
unfolding partition to_int to_sub lstrip rstrip
parse_dpt digit entry =
    let (main_str, sub_str) = partition (strip entry) in
    do main ← to_int digit main_str; sub ← to_sub digit sub_str; ok (main, sub)

-- `str` of a natural number; the fuel `suc n` is enough, since a round divides by ten.
unfoldable pub decimal : ℕ → ℕ → List ℕ
decimal zero n = []
decimal (suc fuel) n =
    let front = decimal fuel (n / 10) in
    if ltb n 10 then (b'0' + n) ∷ [] else front ++ (b'0' + n % 10) ∷ []

-- The format `03d`.
abbrev pub padded : List ℕ → List ℕ
padded (a ∷ []) = b'0' ∷ b'0' ∷ a ∷ []
padded (a ∷ b ∷ []) = b'0' ∷ a ∷ b ∷ []
padded cs = cs

-- `_format_dpt`
unfoldable pub format_dpt : Option ℕ → Option ℕ → Option (List ℕ)
unfolding decimal
format_dpt none dpt_sub = none
format_dpt (some main) none = some (decimal (suc main) main)
format_dpt (some main) (some sub) =
    some (decimal (suc main) main ++ (b'.' ∷ padded (decimal (suc sub) sub)))
