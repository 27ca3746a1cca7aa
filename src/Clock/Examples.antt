-- ===== src/Clock/Examples.antt =====
-- The calendar at the Friday after Thanksgiving 2026.
use multi_agent_llm_trading.Prelude.{
  ℕ, ◌*◌, ◌≤◌, ◌≡◌, refl, inl, inr, true, false, ◌&&◌, some, ltb, leb, nat_eq, arith,
}
use multi_agent_llm_trading.Prelude.Dict.{contains}
use multi_agent_llm_trading.Clock.{
  LocalTime, hour_us, open_time, date_2026, is_trading_day, market_open, next_open,
  next_trading_day, nyse_early_closes_2026,
}
use multi_agent_llm_trading.Clock.Calendar.{
  Before, market_open-hours, next_open-finds, next_open-first,
}

-- 10:00 on 27 November 2026.
abbrev half_day : LocalTime
half_day = record { date = date_2026 11 27; time = 10 * hour_us }

-- 09:30 on the Monday after.
half_day_lem : next_open 5 half_day ≡ some (record { date = date_2026 11 30; time = open_time })
unfolding next_open next_trading_day is_trading_day
half_day_lem = refl

market_open-hours_example :
    (market_open half_day ≡ (
      is_trading_day half_day.date
      && (leb open_time half_day.time && ltb half_day.time (16 * hour_us))))
    × ((contains half_day.date nyse_early_closes_2026 && market_open half_day) ≡ false)
market_open-hours_example = market_open-hours half_day

next_open-finds_example :
    (t : LocalTime) × (next_open 5 half_day ≡ some t) × (market_open t ≡ true) × Before half_day t
next_open-finds_example = next_open-finds half_day

-- From noon on the Wednesday before Thanksgiving; 15:00 is in the session that has begun.
abbrev wednesday : ℕ → LocalTime
wednesday hour = record { date = date_2026 11 25; time = hour * hour_us }

wednesday_lem :
    next_open 5 (wednesday 12) ≡ some (record { date = date_2026 11 30; time = open_time })
unfolding next_open next_trading_day is_trading_day
wednesday_lem = refl

next_open-first_example :
    ((wednesday 15).date ≡ (wednesday 12).date) × (open_time ≤ (wednesday 12).time)
next_open-first_example =
    next_open-first (wednesday 12) (record { date = date_2026 11 30; time = open_time })
      (wednesday 15) wednesday_lem (inr (refl, omega arith)) (inl (omega arith))
      (unfold market_open is_trading_day in refl)
