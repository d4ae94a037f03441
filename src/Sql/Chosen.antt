-- ===== src/Sql/Chosen.antt =====
-- Which telegrams a query of a SQL store is for, without tables and rows.
use knx_telegram_store.Prelude.{
  ◌+◌, ◌*◌, ◌≤◌, Bool, true, false, ◌&&◌, ◌||◌, List, [], ◌∷◌, Option, none, some, ◌≡◌, leb,
  if◌then◌else◌, is_nonempty, arith,
}
use knx_telegram_store.Prelude.Int.{ℤ, pos, negsuc, pos_part, neg_part, leb_ℤ, neg_ℤ, ◌+ℤ◌, ◌*ℤ◌}
use knx_telegram_store.Prelude.Keep.{keep}
use knx_telegram_store.Exceptions.{ok}
use knx_telegram_store.Model.{Time, StoredTelegram}
use knx_telegram_store.Query.{TelegramQuery}
use knx_telegram_store.Query.Matching.{matches}
use knx_telegram_store.Memory.Times.{milliseconds}
use knx_telegram_store.Sql.Select.{delta_active}

abbrev pub is_present : {A : Type 0} → Option A → Bool
is_present none = false
is_present (some a) = true

-- The query names a filter.
abbrev pub is_restricted : TelegramQuery → Bool
is_restricted q =
    is_nonempty q.sources
    || is_nonempty q.destinations
    || is_nonempty q.telegram_types
    || is_nonempty q.directions
    || (is_nonempty q.dpt_mains || is_nonempty q.dpts)
    || is_present q.start_time
    || is_present q.end_time

-- The instants `t` and `p` are at most the deltas apart; a negative delta narrows its side.
abbrev pub not_too_early : TelegramQuery → Time → Time → Bool
not_too_early q p t =
    leb (p + neg_part q.delta_before_ms * 1000) (t + pos_part q.delta_before_ms * 1000)

abbrev pub not_too_late : TelegramQuery → Time → Time → Bool
not_too_late q p t =
    leb (t + neg_part q.delta_after_ms * 1000) (p + pos_part q.delta_after_ms * 1000)

abbrev pub in_window : TelegramQuery → StoredTelegram → StoredTelegram → Bool
in_window q p t = not_too_early q p.timestamp t.timestamp && not_too_late q p.timestamp t.timestamp

abbrev pub near_any : TelegramQuery → List StoredTelegram → StoredTelegram → Bool
near_any q [] t = false
near_any q (p ∷ pivots) t = in_window q p t || near_any q pivots t

-- With a context window and a filter: the telegrams in the window of one that matches. Else those that
-- match.
unfoldable pub chosen : TelegramQuery → List StoredTelegram → StoredTelegram → Bool
unfolding matches
chosen q ts t =
    if delta_active q && is_restricted q then near_any q (keep (matches q) ts) t else matches q t

-- Both deltas are in the range of a `timedelta`.
pub record FitsTimedelta (ms : ℤ) : Type 0 where
  pub above : pos_part ms * 1000 ≤ 86399999913600000000
  pub below : neg_part ms * 1000 ≤ 86399999913600000000

pub milliseconds_fits : (ms : ℤ) → FitsTimedelta ms → milliseconds ms ≡ ok (ms *ℤ 1000)
unfolding milliseconds
milliseconds_fits (pos n) h = ground arith
milliseconds_fits (negsuc n) h = ground arith

pub before_shift :
    (p t : Time) (b : ℤ)
    → leb_ℤ (pos p +ℤ neg_ℤ (b *ℤ 1000)) (pos t)
      ≡ leb (p + neg_part b * 1000) (t + pos_part b * 1000)
before_shift p t (pos n) = ground arith
before_shift p t (negsuc n) = ground arith

pub after_shift :
    (p t : Time) (b : ℤ)
    → leb_ℤ (pos t) (pos p +ℤ b *ℤ 1000) ≡ leb (t + neg_part b * 1000) (p + pos_part b * 1000)
after_shift p t (pos n) = ground arith
after_shift p t (negsuc n) = ground arith
