-- ===== src/Query/Matching.antt =====
-- What the docstring of `TelegramQuery` promises of a filter: OR within a category, AND across the
-- categories, and an empty category restricts nothing.
use knx_telegram_store.Prelude.{
  ℕ, Bool, true, false, not, ◌&&◌, ◌||◌, List, [], ◌∷◌, Option, none, some, leb, contains,
  is_nonempty, PyEq, ◌==◌, string_eq, nat_eq, option_eq,
}
use knx_telegram_store.Model.{Time, TimeBound, instant_of, StoredTelegram}
use knx_telegram_store.Query.{TelegramQuery}

-- No restriction, or one of the listed values.
abbrev pub passes : {A : Type 0} ⦃e : PyEq A⦄ → List A → A → Bool
passes wanted a = not (is_nonempty wanted) || contains wanted a

-- A pair `(main, sub)` names one subtype, a pair `(main, None)` every subtype of its main.
abbrev pub names_dpt : StoredTelegram → ℕ × Option ℕ → Bool
names_dpt t (main, none) = t.dpt_main == some main
names_dpt t (main, some sub) = t.dpt_main == some main && t.dpt_sub == some sub

abbrev pub any_dpt : StoredTelegram → List (ℕ × Option ℕ) → Bool
any_dpt t [] = false
any_dpt t (d ∷ ds) = names_dpt t d || any_dpt t ds

abbrev pub main_listed : Option ℕ → List ℕ → Bool
main_listed none mains = false
main_listed (some main) mains = contains mains main

-- `dpt_mains` and `dpts` are one category.
abbrev pub passes_dpt : TelegramQuery → StoredTelegram → Bool
passes_dpt q t =
    (not (is_nonempty q.dpt_mains) && not (is_nonempty q.dpts))
    || main_listed t.dpt_main q.dpt_mains
    || any_dpt t q.dpts

-- A bound restricts by its instant.
abbrev pub not_before : Option TimeBound → Time → Bool
not_before none ts = true
not_before (some start) ts = leb (instant_of start) ts

abbrev pub not_after : Option TimeBound → Time → Bool
not_after none ts = true
not_after (some end) ts = leb ts (instant_of end)

unfoldable pub matches : TelegramQuery → StoredTelegram → Bool
matches q t =
    passes q.sources t.source
    && passes q.destinations t.destination
    && passes q.telegram_types t.telegramtype
    && passes q.directions t.direction
    && passes_dpt q t
    && not_before q.start_time t.timestamp
    && not_after q.end_time t.timestamp
