-- ===== src/Sizing/Leverage.antt =====
-- The leverage of the volatility target over the days.
use multi_agent_llm_trading.Prelude.{ℕ, ◌+◌, ◌-◌, ◌≤◌, Option, none, some, List, [], ◌∷◌}
use multi_agent_llm_trading.Types.{unit, times}
use multi_agent_llm_trading.Sizing.{
  VolTargetSizer, target_leverage, vol_target_cap_leverage, leverage_day_change_cap,
}

-- The leverage of the day before, if there was one, is at most 1.75.
abbrev pub IsCapped : Option ℕ → Type 0
IsCapped none = Unit
IsCapped (some prev) = prev ≤ vol_target_cap_leverage

-- Of one day to the next: neither 10% more nor 10% less, up to the rounding.
abbrev pub IsSmooth : Option ℕ → ℕ → Type 0
IsSmooth none leverage = Unit
IsSmooth (some prev) leverage =
    (leverage ≤ times prev (unit + leverage_day_change_cap))
    × (times prev (unit - leverage_day_change_cap) ≤ leverage)

-- The leverages of a run of days, each with the one of the day before.
pub leverages : List ℕ → VolTargetSizer → List (Option ℕ × ℕ)
leverages [] s = []
leverages (vol ∷ vols) s =
    let (leverage, s') = target_leverage vol s in (s.prev_leverage, leverage) ∷ leverages vols s'
