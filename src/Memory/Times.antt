-- ===== src/Memory/Times.antt =====
-- `timedelta(milliseconds=...)` and `datetime` plus or minus a `timedelta`, with the overflow that
-- Python checks.
use knx_telegram_store.Prelude.{ℕ, suc, ◌+◌, ◌-◌, ◌*◌, ◌≡◌, leb, if◌then◌else◌, arith}
use knx_telegram_store.Prelude.Int.{ℤ, pos, negsuc, pos_part, neg_part, neg_ℤ}
use knx_telegram_store.Exceptions.{Result, ok, raise_new, overflow_error}
use knx_telegram_store.Model.{Time, Timedelta, max_time}

-- The microseconds of `timedelta.max`, and those of `timedelta.min` with their sign dropped.
abbrev max_timedelta : ℕ
max_timedelta = 86399999999999999999

abbrev min_timedelta : ℕ
min_timedelta = 86399999913600000000

unfoldable pub milliseconds : ℤ → Result Timedelta
milliseconds (pos n) =
    if leb (n * 1000) max_timedelta then ok (pos (n * 1000)) else raise_new overflow_error
milliseconds (negsuc n) =
    if leb (suc n * 1000) min_timedelta
    then ok (neg_ℤ (pos (suc n * 1000)))
    else raise_new overflow_error

unfoldable pub plus : Time → Timedelta → Result Time
plus t (pos n) = if leb (t + n) max_time then ok (t + n) else raise_new overflow_error
plus t (negsuc n) = if leb (suc n) t then ok (t - suc n) else raise_new overflow_error

unfoldable pub minus : Time → Timedelta → Result Time
unfolding plus
minus t d = plus t (neg_ℤ d)

pub milliseconds_exact :
    (ms : ℤ) (d : Timedelta)
    → milliseconds ms ≡ ok d
    → pos_part d + neg_part ms * 1000 ≡ pos_part ms * 1000 + neg_part d
unfolding milliseconds
milliseconds_exact (pos n) d h = ground arith
milliseconds_exact (negsuc n) d h = ground arith

pub plus_exact :
    (t : Time) (d : Timedelta) (u : Time) → plus t d ≡ ok u → u + neg_part d ≡ t + pos_part d
unfolding plus
plus_exact t (pos n) u h = ground arith
plus_exact t (negsuc n) u h = ground arith

pub minus_exact :
    (t : Time) (d : Timedelta) (u : Time) → minus t d ≡ ok u → u + pos_part d ≡ t + neg_part d
unfolding minus
minus_exact t (pos n) u h = ground (arith, plus_exact t (neg_ℤ (pos n)) u)
minus_exact t (negsuc n) u h = ground (arith, plus_exact t (neg_ℤ (negsuc n)) u)
