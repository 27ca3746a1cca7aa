-- ===== src/Clock.antt =====
-- core/clock.py: WallClock and BacktestClock, whose calendar methods are the same text.
--
-- An instant is UTC in microseconds, and a date the number of days since 1970-01-01, a Thursday. The
-- time zone of New York is a parameter `et`, from an instant to the date and the time of day there.
pub mod Calendar
mod Examples
use multi_agent_llm_trading.Prelude.{
  ℕ, zero, suc, ◌+◌, ◌*◌, ◌%◌, Bool, true, false, not, ◌&&◌, Option, none, some, List, [], ◌∷◌, map,
  ltb, leb, nat_eq, if◌then◌else◌,
}
use multi_agent_llm_trading.Prelude.Int.{ℤ, ◌+ℤ◌}
use multi_agent_llm_trading.Prelude.Dict.{Dict, lookup, contains}

-- The days of 2026 before each month.
abbrev month_starts : Dict ℕ ℕ
month_starts =
    (1, 0)
    ∷ (2, 31)
    ∷ (3, 59)
    ∷ (4, 90)
    ∷ (5, 120)
    ∷ (6, 151)
    ∷ (7, 181)
    ∷ (8, 212)
    ∷ (9, 243)
    ∷ (10, 273)
    ∷ (11, 304)
    ∷ (12, 334)
    ∷ []

abbrev days_before : Option ℕ → ℕ
days_before none = 0
days_before (some n) = n

-- `date(2026, month, day)`
abbrev pub date_2026 : ℕ → ℕ → ℕ
date_2026 month day = 20453 + days_before (lookup month month_starts) + day

-- `_NYSE_HOLIDAYS_2026`, as a dict from its days.
abbrev pub nyse_holidays_2026 : Dict ℕ (Unit {0})
nyse_holidays_2026 =
    (date_2026 1 1, tt)
    ∷ (date_2026 1 19, tt)
    ∷ (date_2026 2 16, tt)
    ∷ (date_2026 4 3, tt)
    ∷ (date_2026 5 25, tt)
    ∷ (date_2026 6 19, tt)
    ∷ (date_2026 7 3, tt)
    ∷ (date_2026 9 7, tt)
    ∷ (date_2026 11 26, tt)
    ∷ (date_2026 11 27, tt)
    ∷ (date_2026 12 24, tt)
    ∷ (date_2026 12 25, tt)
    ∷ []

-- `_NYSE_EARLY_CLOSES_2026`
abbrev pub nyse_early_closes_2026 : Dict ℕ ℕ
nyse_early_closes_2026 = (date_2026 11 27, 13) ∷ (date_2026 12 24, 13) ∷ []

-- A date and a time of day in New York, in microseconds.
pub record LocalTime : Type 0 where
  pub date : ℕ
  pub time : ℕ

abbrev pub hour_us : ℕ
hour_us = 3600000000

-- 09:30
abbrev pub open_time : ℕ
open_time = 34200000000

-- Monday is 0.
abbrev pub weekday : ℕ → ℕ
weekday d = (d + 3) % 7

unfoldable pub is_trading_day : ℕ → Bool
is_trading_day d = if leb 5 (weekday d) then false else not (contains d nyse_holidays_2026)

-- `_NYSE_EARLY_CLOSES_2026.get(day, 16)`
abbrev pub close_hour : Option ℕ → ℕ
close_hour none = 16
close_hour (some hour) = hour

unfoldable pub market_open : LocalTime → Bool
market_open now =
    if is_trading_day now.date
    then leb open_time now.time
      && ltb now.time (close_hour (lookup now.date nyse_early_closes_2026) * hour_us)
    else false

-- The `while` of `next_open`, from `candidate`; `none` is a loop that has not ended within the fuel.
unfoldable pub next_trading_day : ℕ → ℕ → Option ℕ
next_trading_day zero candidate = none
next_trading_day (suc fuel) candidate =
    let rest = next_trading_day fuel (candidate + 1) in
    if is_trading_day candidate then some candidate else rest

unfoldable pub next_open : ℕ → LocalTime → Option LocalTime
next_open fuel now =
    if ltb now.time open_time && is_trading_day now.date
    then some (record { date = now.date; time = open_time })
    else elim (next_trading_day fuel (now.date + 1)) [
      | none ↦ none
      | some d ↦ some (record { date = d; time = open_time })
    ]

-- A datetime: one without a time zone, or an instant.
pub data Stamp : Type 0 where
  naive : Stamp
  aware : (utc : ℤ) → Stamp

pub record BacktestClock : Type 0 where
  pub current : ℤ

-- `BacktestClock(start)` and `set`; `none` is the ValueError.
abbrev pub new_clock : Stamp → Option BacktestClock
new_clock naive = none
new_clock (aware utc) = some (record { current = utc })

abbrev pub set : Stamp → BacktestClock → Option BacktestClock
set naive c = none
set (aware utc) c = some (record c { current = utc })

abbrev pub advance : ℤ → BacktestClock → BacktestClock
advance delta c = record c { current = c.current +ℤ delta }

abbrev pub now_et : (ℤ → LocalTime) → BacktestClock → LocalTime
now_et et c = et c.current

abbrev pub today_et : (ℤ → LocalTime) → BacktestClock → ℕ
today_et et c = (now_et et c).date
