-- ===== src/Mcp/Dpt.antt =====
-- `_parse_dpt` reads what `_format_dpt` writes.
use knx_telegram_store.Prelude.{
  ℕ, zero, suc, ◌+◌, ◌*◌, ◌/◌, ◌%◌, ◌≤◌, ◌<◌, false, List, [], ◌∷◌, ◌++◌, Option, none, some, ◌≡◌,
  refl, ap, sym, ◌∙◌, arith, length, length-append, ltb, ltb→lt, ltb→le, Bool-cases, Option-cases,
  inl, inr, All,
}
use knx_telegram_store.Exceptions.{ok}
use knx_telegram_store.Mcp.Text.{
  is_space, lstrip, rstrip, strip, partition, spelled, with_digit, to_int, parse_dpt, decimal,
  padded, format_dpt,
}

abbrev IsDigit : ℕ → Type 0
IsDigit c = (48 ≤ c) × (c ≤ 57)

-- What may stand in a DPT: a digit or the dot.
abbrev IsDptChar : ℕ → Type 0
IsDptChar c = (46 ≤ c) × (c ≤ 57)

All-append {ℓ κ} :
    {A : Type ℓ} (P : A → Type κ) (xs ys : List A) → All P xs → All P ys → All P (xs ++ ys)
All-append P [] ys h k = k
All-append P (x ∷ xs) ys h k = (h.0, All-append P xs ys h.1 k)

All-weaken {ℓ κ} :
    {A : Type ℓ} (P Q : A → Type κ) (xs : List A) → ((a : A) → P a → Q a) → All P xs → All Q xs
All-weaken P Q [] f h = tt
All-weaken P Q (x ∷ xs) f h = (f x h.0, All-weaken P Q xs f h.1)

decimal-IsDigit : (fuel n : ℕ) → All IsDigit (decimal fuel n)
unfolding decimal
decimal-IsDigit zero n = tt
decimal-IsDigit (suc fuel) n = elim (Bool-cases (ltb n 10)) [
  | inl small ↦ rw small ((omega arith, omega (arith, ltb→lt _ _ small)), tt)
  | inr large ↦ rw large (
      All-append IsDigit (decimal fuel (n / 10)) _ (decimal-IsDigit fuel (n / 10))
        ((omega arith, omega arith), tt))
]

lstrip-digits : (cs : List ℕ) → All IsDptChar cs → lstrip cs ≡ cs
unfolding lstrip
lstrip-digits [] h = refl
lstrip-digits (c ∷ cs) h =
    let solid : is_space c ≡ false = ground (arith, h.0.0, h.0.1) in rw solid refl

rstrip-digits : (cs : List ℕ) → All IsDptChar cs → rstrip cs ≡ cs
unfolding rstrip
rstrip-digits [] h = refl
rstrip-digits (c ∷ cs) h =
    let solid : is_space c ≡ false = ground (arith, h.0.0, h.0.1) in
    rw solid (ap (◌∷◌ c) (rstrip-digits cs h.1))

partition-digits : (cs : List ℕ) → All IsDigit cs → partition cs ≡ (cs, none)
unfolding partition
partition-digits [] h = refl
partition-digits (c ∷ cs) h = rw (partition-digits cs h.1) (ground (arith, h.0.0))

partition-dot : (cs ds : List ℕ) → All IsDigit cs → partition (cs ++ (b'.' ∷ ds)) ≡ (cs, some ds)
unfolding partition
partition-dot [] ds h = refl
partition-dot (c ∷ cs) ds h = rw (partition-dot cs ds h.1) (ground (arith, h.0.0))

module _ (digit : ℕ → Option ℕ) (ascii : (d : ℕ) → d < 10 → digit (48 + d) ≡ some d) where
  -- One character.
  spelled-digit :
      (acc c d : ℕ) (cs : List ℕ)
      → digit c ≡ some d
      → spelled digit acc (c ∷ cs) ≡ spelled digit (acc * 10 + d) cs
  unfolding spelled
  spelled-digit acc c d cs e = ap (λ o. with_digit o (λ d. spelled digit (acc * 10 + d) cs)) e

  spelled-no_digit : (acc c : ℕ) (cs : List ℕ) → digit c ≡ none → spelled digit acc (c ∷ cs) ≡ none
  unfolding spelled
  spelled-no_digit acc c cs e = ap (λ o. with_digit o (λ d. spelled digit (acc * 10 + d) cs)) e

  spelled-last : (acc d : ℕ) → d < 10 → spelled digit acc ((48 + d) ∷ []) ≡ some (acc * 10 + d)
  unfolding spelled
  spelled-last acc d h = spelled-digit acc (48 + d) d [] (ascii d h)

  spelled-append :
      (acc m : ℕ) (xs ys : List ℕ)
      → spelled digit acc xs ≡ some m
      → spelled digit acc (xs ++ ys) ≡ spelled digit m ys
  unfolding spelled
  spelled-append acc m [] ys h = ap (λ (k : ℕ). spelled digit k ys) cc
  spelled-append acc m (c ∷ cs) ys h = elim (Option-cases (digit c)) [
    | inl e ↦ absurd (cc (spelled-no_digit acc c cs e, h))
    | inr (d, e) ↦
        spelled-digit acc c d (cs ++ ys) e
        ∙ spelled-append (acc * 10 + d) m cs ys (sym (spelled-digit acc c d cs e) ∙ h)
  ]

  spelled-decimal : (fuel n : ℕ) → n < fuel → spelled digit 0 (decimal fuel n) ≡ some n
  unfolding decimal
  spelled-decimal zero n h = absurd (omega arith)
  spelled-decimal (suc fuel) n h = elim (Bool-cases (ltb n 10)) [
    | inl small ↦ rw small (spelled-last 0 n (ltb→lt _ _ small) ∙ ap some (omega arith))
    | inr large ↦
        let below : n / 10 < fuel = omega (arith, ltb→le _ _ large) in
        let last : n % 10 < 10 = omega arith in
        let sum : n / 10 * 10 + n % 10 ≡ n = omega arith in
        rw large (
          spelled-append 0 (n / 10) (decimal fuel (n / 10)) _ (spelled-decimal fuel (n / 10) below)
          ∙ spelled-last (n / 10) (n % 10) last
          ∙ ap some sum)
  ]

  decimal-nonempty : (fuel n : ℕ) → n < fuel → 0 < length (decimal fuel n)
  unfolding decimal
  decimal-nonempty zero n h = absurd (omega arith)
  decimal-nonempty (suc fuel) n h = elim (Bool-cases (ltb n 10)) [
    | inl small ↦ rw small (omega arith)
    | inr large ↦
        rw large (omega (arith, length-append (decimal fuel (n / 10)) ((b'0' + n % 10) ∷ [])))
  ]

  to_int-spelled :
      (cs : List ℕ) (n : ℕ)
      → spelled digit 0 cs ≡ some n
      → 0 < length cs
      → length cs ≤ 4300
      → to_int digit cs ≡ ok n
  unfolding to_int
  to_int-spelled [] n h nonempty short = absurd (omega arith)
  to_int-spelled (c ∷ cs) n h nonempty short =
      let fits : ltb 4300 (length (c ∷ cs)) ≡ false = ground arith in rw (fits, h) refl

  spelled-zero : (cs : List ℕ) → spelled digit 0 (b'0' ∷ cs) ≡ spelled digit 0 cs
  spelled-zero cs = spelled-digit 0 48 0 cs (ascii 0 (omega arith))

  spelled-padded : (cs : List ℕ) → spelled digit 0 (padded cs) ≡ spelled digit 0 cs
  spelled-padded [] = refl
  spelled-padded (a ∷ []) = spelled-zero (b'0' ∷ a ∷ []) ∙ spelled-zero (a ∷ [])
  spelled-padded (a ∷ b ∷ []) = spelled-zero (a ∷ b ∷ [])
  spelled-padded (a ∷ b ∷ c ∷ cs) = refl

padded-IsDigit : (cs : List ℕ) → All IsDigit cs → All IsDigit (padded cs)
padded-IsDigit [] h = tt
padded-IsDigit (a ∷ []) h = ((omega arith, omega arith), ((omega arith, omega arith), h))
padded-IsDigit (a ∷ b ∷ []) h = ((omega arith, omega arith), h)
padded-IsDigit (a ∷ b ∷ c ∷ cs) h = h

length-padded :
    (cs : List ℕ)
    → 0 < length cs
    → length cs ≤ 4300
    → (0 < length (padded cs)) × (length (padded cs) ≤ 4300)
length-padded [] h k = absurd (omega arith)
length-padded (a ∷ []) h k = (omega arith, omega arith)
length-padded (a ∷ b ∷ []) h k = (omega arith, omega arith)
length-padded (a ∷ b ∷ c ∷ cs) h k = (h, k)

digit_IsDptChar : (c : ℕ) → IsDigit c → IsDptChar c
digit_IsDptChar c h = (omega (arith, h.0), h.1)

strip-digits : (cs : List ℕ) → All IsDptChar cs → strip cs ≡ cs
strip-digits cs h = ap rstrip (lstrip-digits cs h) ∙ rstrip-digits cs h

-- `str` of a number.
abbrev pub digits_of : ℕ → List ℕ
digits_of n = decimal (suc n) n

abbrev pub sub_length : Option ℕ → ℕ
sub_length none = 0
sub_length (some sub) = length (digits_of sub)

module _ (digit : ℕ → Option ℕ) (ascii : (d : ℕ) → d < 10 → digit (48 + d) ≡ some d) where
  to_int-digits_of : (n : ℕ) → length (digits_of n) ≤ 4300 → to_int digit (digits_of n) ≡ ok n
  to_int-digits_of n h =
      to_int-spelled digit ascii (digits_of n) n
        (spelled-decimal digit ascii (suc n) n (omega arith))
        (decimal-nonempty digit ascii (suc n) n (omega arith)) h

  to_int-padded : (n : ℕ) → length (digits_of n) ≤ 4300 → to_int digit (padded (digits_of n)) ≡ ok n
  to_int-padded n h =
      let nonempty = decimal-nonempty digit ascii (suc n) n (omega arith) in
      let (some_digit, short) = length-padded (digits_of n) nonempty h in
      to_int-spelled digit ascii (padded (digits_of n)) n
        (spelled-padded digit ascii (digits_of n)
          ∙ spelled-decimal digit ascii (suc n) n (omega arith))
        some_digit short

  -- A DPT that `_format_dpt` writes is read back by `_parse_dpt` as the same main and sub number, if
  -- neither has more than the 4300 digits that Python converts and the decimal digit of each of the
  -- characters 0 to 9 is the one it shows.
  pub parse_dpt-format_dpt :
      (main : ℕ) (sub : Option ℕ)
      → length (digits_of main) ≤ 4300
      → sub_length sub ≤ 4300
      → (text : List ℕ) × (format_dpt (some main) sub ≡ some text)
        × (parse_dpt digit text ≡ ok (main, sub))
  unfolding format_dpt parse_dpt
  parse_dpt-format_dpt main none h k =
      let ds = decimal-IsDigit (suc main) main in
      let text = digits_of main in
      let stripped = strip-digits text (All-weaken IsDigit IsDptChar text digit_IsDptChar ds) in
      (text, refl, rw (stripped, partition-digits text ds, to_int-digits_of main h) refl)
  parse_dpt-format_dpt main (some sub) h k =
      let front = digits_of main in
      let back = padded (digits_of sub) in
      let ds = decimal-IsDigit (suc main) main in
      let es = padded-IsDigit (digits_of sub) (decimal-IsDigit (suc sub) sub) in
      let text = front ++ (b'.' ∷ back) in
      let solid =
        All-append IsDptChar front (b'.' ∷ back)
          (All-weaken IsDigit IsDptChar front digit_IsDptChar ds)
          ((omega arith, omega arith), All-weaken IsDigit IsDptChar back digit_IsDptChar es) in
      let stripped = strip-digits text solid in
      (
        text,
        refl,
        rw (stripped, partition-dot front back ds, to_int-digits_of main h, to_int-padded sub k)
            refl,
      )
