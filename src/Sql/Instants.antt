-- ===== src/Sql/Instants.antt =====
-- `datetime_to_micros`, `micros_to_datetime` and the column type `UtcDateTime`.
use knx_telegram_store.Prelude.{
  ℕ, ◌+◌, ◌≤◌, String, Option, none, some, ◌≡◌, refl, ap, sym, ◌∙◌, arith,
}
use knx_telegram_store.Prelude.Int.{ℤ, pos, negsuc, pos_part, neg_part, neg_ℤ, sub_ℕ, ◌+ℤ◌}
use knx_telegram_store.Exceptions.{Result, ok, ◌>>=◌}
use knx_telegram_store.Model.{Time, Timedelta, max_time}
use knx_telegram_store.Memory.Times.{plus, minus}
use knx_telegram_store.Lookup.{Dialect, postgresql, sqlite, other_dialect}

-- A `datetime`: its digits as microseconds since the year 1, and its offset from UTC if it is aware.
pub record Datetime : Type 0 where
  pub digits : Time
  pub tzinfo : Option Timedelta

abbrev pub utc : Time → Datetime
utc t = record { digits = t; tzinfo = some (pos 0) }

abbrev pub offset_of : Datetime → Timedelta
offset_of d = elim d.tzinfo [ none ↦ pos 0 | some offset ↦ offset ]

-- `_EPOCH`, 1970-01-01, as microseconds since the year 1.
abbrev pub epoch : ℕ
epoch = 62135596800000000

-- A naive value is taken as UTC; the difference of two aware values is that of their instants.
unfoldable pub datetime_to_micros : Datetime → ℤ
datetime_to_micros d = pos d.digits +ℤ neg_ℤ (offset_of d) +ℤ neg_ℤ (pos epoch)

unfoldable pub micros_to_datetime : ℤ → Result Datetime
unfolding plus
micros_to_datetime value = do t ← plus epoch value; ok (utc t)

-- `value.astimezone(UTC)` of an aware value.
abbrev pub astimezone_utc : Time → Timedelta → Result Datetime
astimezone_utc digits offset = do t ← minus digits offset; ok (utc t)

abbrev pub normalized : Time → Option Timedelta → Result Datetime
normalized digits none = ok (utc digits)
normalized digits (some offset) = astimezone_utc digits offset

-- What passes between the column type and the driver.
pub data ColumnValue : Type 0 where
  datetime_value : Datetime → ColumnValue
  int_value : ℤ → ColumnValue
  str_value : String → ColumnValue
  none_value : ColumnValue

abbrev pub bind_datetime : Dialect → Datetime → Result ColumnValue
bind_datetime dialect d = elim dialect [
  | sqlite ↦ ok (int_value (datetime_to_micros d))
  | _ ↦ (do u ← normalized d.digits d.tzinfo; ok (datetime_value u))
]

unfoldable pub process_bind_param : ColumnValue → Dialect → Result ColumnValue
unfolding datetime_to_micros minus
process_bind_param (datetime_value d) dialect = bind_datetime dialect d
process_bind_param (int_value n) dialect = ok (int_value n)
process_bind_param (str_value s) dialect = ok (str_value s)
process_bind_param none_value dialect = ok none_value

-- `fromisoformat` is Python's: the digits of a text.
module _ (fromisoformat : String → Result Datetime) where
  abbrev pub result_sqlite : ColumnValue → Result ColumnValue
  result_sqlite (int_value n) = do d ← micros_to_datetime n; ok (datetime_value d)
  result_sqlite (str_value s) = do d ← fromisoformat s; ok (datetime_value (utc d.digits))
  result_sqlite (datetime_value d) = ok (datetime_value d)
  result_sqlite none_value = ok none_value

  abbrev pub result_other : ColumnValue → Result ColumnValue
  result_other (datetime_value d) = do u ← normalized d.digits d.tzinfo; ok (datetime_value u)
  result_other (int_value n) = ok (int_value n)
  result_other (str_value s) = ok (str_value s)
  result_other none_value = ok none_value

  unfoldable pub process_result_value : ColumnValue → Dialect → Result ColumnValue
  unfolding micros_to_datetime minus
  process_result_value value dialect = elim dialect [
    | sqlite ↦ result_sqlite value
    | _ ↦ result_other value
  ]

-- The instant of a value is `t`.
abbrev pub HasInstant : Datetime → Time → Type 0
HasInstant d t = t + pos_part (offset_of d) ≡ d.digits + neg_part (offset_of d)

less_offset :
    (digits : Time) (offset : ℤ) (t : Time)
    → t + pos_part offset ≡ digits + neg_part offset
    → pos digits +ℤ neg_ℤ offset ≡ pos t
less_offset digits (pos n) t h = ground arith
less_offset digits (negsuc n) t h = ground arith

micros-HasInstant :
    (d : Datetime) (t : Time) → HasInstant d t → datetime_to_micros d ≡ pos t +ℤ neg_ℤ (pos epoch)
unfolding datetime_to_micros
micros-HasInstant d t h = ap (λ x. x +ℤ neg_ℤ (pos epoch)) (less_offset d.digits (offset_of d) t h)

plus_in_range :
    (t : Time) (d : Timedelta) (u : Time)
    → u + neg_part d ≡ t + pos_part d
    → u ≤ max_time
    → plus t d ≡ ok u
unfolding plus
plus_in_range t (pos n) u h k = ground arith
plus_in_range t (negsuc n) u h k = ground arith

sub-parts : (a b : ℕ) → b + pos_part (sub_ℕ a b) ≡ a + neg_part (sub_ℕ a b)
sub-parts a b = ground arith

plus-back : (t : Time) → t ≤ max_time → plus epoch (pos t +ℤ neg_ℤ (pos epoch)) ≡ ok t
plus-back t h =
    let same : t + 0 ≡ t = omega arith in
    ap (λ n. plus epoch (sub_ℕ n epoch)) same
    ∙ plus_in_range epoch (sub_ℕ t epoch) t (sym (sub-parts t epoch)) h

minus-HasInstant :
    (digits : Time) (offset : ℤ) (t : Time)
    → t ≤ max_time
    → t + pos_part offset ≡ digits + neg_part offset
    → minus digits offset ≡ ok t
unfolding minus
minus-HasInstant digits (pos n) t h k = plus_in_range digits (neg_ℤ (pos n)) t (ground arith) h
minus-HasInstant digits (negsuc n) t h k =
    plus_in_range digits (neg_ℤ (negsuc n)) t (ground arith) h

normalized-HasInstant :
    (digits : Time) (tzinfo : Option Timedelta) (t : Time)
    → t ≤ max_time
    → HasInstant (record { digits = digits; tzinfo = tzinfo }) t
    → normalized digits tzinfo ≡ ok (utc t)
unfolding minus
normalized-HasInstant digits none t h k = ap (λ x. ok (utc x)) (omega (arith, k))
normalized-HasInstant digits (some offset) t h k =
    ap (λ (r : Result Time). r >>= λ u. ok (utc u)) (minus-HasInstant digits offset t h k)

micros_to_datetime-back :
    (t : Time) → t ≤ max_time → micros_to_datetime (pos t +ℤ neg_ℤ (pos epoch)) ≡ ok (utc t)
unfolding micros_to_datetime
micros_to_datetime-back t h = ap (λ (r : Result Time). r >>= λ u. ok (utc u)) (plus-back t h)

-- A datetime with an offset or without one, whose instant is in the range of `datetime`, is stored as a
-- column value that is read back as that instant in UTC, on every dialect.
pub process_result_value-process_bind_param :
    (fromisoformat : String → Result Datetime) (dialect : Dialect) (d : Datetime) (t : Time)
    → t ≤ max_time
    → HasInstant d t
    → (v : ColumnValue) × (process_bind_param (datetime_value d) dialect ≡ ok v)
      × (process_result_value fromisoformat v dialect ≡ ok (datetime_value (utc t)))
unfolding process_bind_param process_result_value
process_result_value-process_bind_param fromisoformat sqlite d t h k = (
  int_value (datetime_to_micros d),
  refl,
  ap (λ n. result_sqlite fromisoformat (int_value n)) (micros-HasInstant d t k)
      ∙ ap (λ (r : Result Datetime). r >>= λ u. ok (datetime_value u))
          (micros_to_datetime-back t h),
)
process_result_value-process_bind_param fromisoformat postgresql d t h k = (
  datetime_value (utc t),
  ap (λ (r : Result Datetime). r >>= λ u. ok (datetime_value u))
      (normalized-HasInstant d.digits d.tzinfo t h k),
  ap (λ (r : Result Datetime). r >>= λ u. ok (datetime_value u))
      (normalized-HasInstant t (some (pos 0)) t h refl),
)
process_result_value-process_bind_param fromisoformat other_dialect d t h k = (
  datetime_value (utc t),
  ap (λ (r : Result Datetime). r >>= λ u. ok (datetime_value u))
      (normalized-HasInstant d.digits d.tzinfo t h k),
  ap (λ (r : Result Datetime). r >>= λ u. ok (datetime_value u))
      (normalized-HasInstant t (some (pos 0)) t h refl),
)
