-- ===== src/Sizing.antt =====
-- execution/sizing.py: leverage caps and volatility targets, with the setting of
-- config/runtime_store.py that scales them.
--
-- The square root of the Decimal context is a parameter `sqrt`. Sleeve weights are what
-- `read_sleeve_weights` reads from the Manager's file. MASTER_CAPABILITY is taken not to be negative.
pub mod Bounds
pub mod Leverage
mod Examples
use multi_agent_llm_trading.Prelude.{
  ℕ, ◌+◌, ◌-◌, ◌*◌, Bool, true, false, not, ◌&&◌, Option, none, some, min, max, ltb, eqb,
  if◌then◌else◌,
}
use multi_agent_llm_trading.Prelude.Int.{ℤ, pos, pos_part, neg_part}
use multi_agent_llm_trading.Types.{
  AgentId, DrawdownBucket, VixBucket, unit, percent, times, over, times_ℤ,
}

-- EWMA_LAMBDA, VOL_FLOOR_ANNUAL, VOL_TARGET_CAP_LEVERAGE, LEVERAGE_DAY_CHANGE_CAP,
-- MAX_MASTER_CAPABILITY.
abbrev pub ewma_lambda : ℕ
ewma_lambda = percent 94

abbrev pub vol_floor_annual : ℕ
vol_floor_annual = percent 8

abbrev pub vol_target_cap_leverage : ℕ
vol_target_cap_leverage = percent 175

abbrev pub leverage_day_change_cap : ℕ
leverage_day_change_cap = percent 10

abbrev pub max_master_capability : ℕ
max_master_capability = percent 150

abbrev pub trading_days : ℕ
trading_days = percent 25200

-- AGENT_BASE_MAX_GROSS
abbrev pub agent_base_max_gross : AgentId → ℕ
agent_base_max_gross AgentId.haiku = percent 150
agent_base_max_gross AgentId.sonnet = percent 125
agent_base_max_gross AgentId.opus = percent 100
agent_base_max_gross AgentId.manager = percent 100

-- AGENT_BASE_VOL_TARGET
abbrev pub agent_base_vol_target : AgentId → ℕ
agent_base_vol_target AgentId.haiku = percent 30
agent_base_vol_target AgentId.sonnet = percent 25
agent_base_vol_target AgentId.opus = percent 20
agent_base_vol_target AgentId.manager = percent 10

-- VIX_SCALARS
abbrev pub vix_scalar : VixBucket → ℕ
vix_scalar VixBucket.very_low = percent 60
vix_scalar VixBucket.sweet_spot = percent 100
vix_scalar VixBucket.elevated = percent 80
vix_scalar VixBucket.stress = percent 50
vix_scalar VixBucket.crisis = percent 25

-- DRAWDOWN_SCALARS
abbrev pub drawdown_scalar : DrawdownBucket → ℕ
drawdown_scalar DrawdownBucket.normal = percent 100
drawdown_scalar DrawdownBucket.yellow = percent 75
drawdown_scalar DrawdownBucket.orange = percent 50
drawdown_scalar DrawdownBucket.red = percent 25
drawdown_scalar DrawdownBucket.forced_cash = 0

unfoldable pub classify_vix : ℕ → VixBucket
classify_vix vix =
    if ltb vix (percent 1200)
    then VixBucket.very_low
    else if ltb vix (percent 1800)
    then VixBucket.sweet_spot
    else if ltb vix (percent 2500)
    then VixBucket.elevated
    else if ltb vix (percent 3500)
    then VixBucket.stress
    else VixBucket.crisis

-- A weight between 0.25 and 2; an agent that the file does not name has 1.
abbrev pub sleeve_weight : Option ℕ → ℕ
sleeve_weight none = percent 100
sleeve_weight (some w) = max (percent 25) (min (percent 200) w)

-- `none` is the ValueError.
unfoldable pub effective_max_gross :
    (AgentId → Option ℕ) → AgentId → ℕ → VixBucket → DrawdownBucket → Option ℕ
effective_max_gross sleeve_weights agent_id master_capability vix_bucket drawdown_bucket =
    if ltb max_master_capability master_capability
    then none
    else some (
        times
          (times
            (times (times (agent_base_max_gross agent_id) master_capability)
              (vix_scalar vix_bucket))
            (drawdown_scalar drawdown_bucket))
          (sleeve_weight (sleeve_weights agent_id)))

-- `EWMAVolEstimator._variance`
pub record EwmaVolEstimator : Type 0 where
  pub lambda : ℕ
  pub variance : ℕ

unfoldable pub update : ℤ → EwmaVolEstimator → EwmaVolEstimator
update daily_return e =
    let r = pos_part daily_return + neg_part daily_return in
    record e { variance = times e.lambda e.variance + times (unit - e.lambda) (times r r) }

module _ (sqrt : ℕ → ℕ) where
  -- `_FLOOR_DAILY`
  abbrev pub floor_daily : ℕ
  floor_daily = over vol_floor_annual (sqrt trading_days)

  unfoldable pub daily_vol : EwmaVolEstimator → ℕ
  daily_vol e = if eqb e.variance 0 then floor_daily else max (sqrt e.variance) floor_daily

  unfoldable pub annual_vol : EwmaVolEstimator → ℕ
  unfolding daily_vol
  annual_vol e = times (daily_vol e) (sqrt trading_days)

-- `VolTargetSizer`, beside its estimator.
pub record VolTargetSizer : Type 0 where
  pub target_vol : ℕ
  pub prev_leverage : Option ℕ

-- The cap on the change from one day to the next.
abbrev pub limit_change : Option ℕ → ℕ → ℕ
limit_change none capped = capped
limit_change (some prev) capped =
    let max_up = times prev (unit + leverage_day_change_cap) in
    let max_down = times prev (unit - leverage_day_change_cap) in min (max capped max_down) max_up

-- `target_leverage`, on the volatility that the estimator gives.
unfoldable pub target_leverage : ℕ → VolTargetSizer → ℕ × VolTargetSizer
target_leverage current_vol s =
    let raw = over s.target_vol current_vol in
    let leverage = limit_change s.prev_leverage (min raw vol_target_cap_leverage) in
    (leverage, record s { prev_leverage = some leverage })

unfoldable pub final_leverage : ℕ → ℕ → VolTargetSizer → ℕ × VolTargetSizer
unfolding target_leverage
final_leverage max_gross current_vol s =
    let (leverage, s') = target_leverage current_vol s in (min leverage max_gross, s')

unfoldable pub sizing_multiplier : ℕ → ℕ → ℕ
sizing_multiplier realized_vol_annual effective_vol_target =
    min (over effective_vol_target (max realized_vol_annual vol_floor_annual))
      vol_target_cap_leverage

unfoldable pub vol_targeted_position_value : ℤ → ℤ → ℕ → ℕ → ℤ
unfolding sizing_multiplier
vol_targeted_position_value target_weight agent_equity realized_vol_annual effective_vol_target =
    times_ℤ (times_ℤ target_weight agent_equity)
      (pos (sizing_multiplier realized_vol_annual effective_vol_target))

-- `RuntimeStore`: the value is clamped on a write, unless OVERRIDE_KEY is set.
pub record RuntimeStore : Type 0 where
  pub master_capability : ℕ
  pub persisted : Option ℕ

unfoldable pub new_store : ℕ → Option ℕ → RuntimeStore
new_store default none = record { master_capability = default; persisted = none }
new_store default (some value) = record { master_capability = value; persisted = some value }

unfoldable pub set_master_capability : Bool → ℕ → RuntimeStore → RuntimeStore
set_master_capability override_key value store =
    let value' =
      if ltb max_master_capability value && not override_key
      then max_master_capability
      else value in
    record { master_capability = value'; persisted = some value' }
