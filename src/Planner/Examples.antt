-- ===== src/Planner/Examples.antt =====
-- The planner at concrete intents.
use multi_agent_llm_trading.Prelude.{
  ℕ, ◌+◌, ◌-◌, ◌*◌, ◌≤◌, ◌<◌, ◌≡◌, refl, false, none, some, [], ◌∷◌, arith, ◌==◌, string_eq,
  if◌then◌else◌,
}
use multi_agent_llm_trading.Prelude.Int.{ℤ, pos, ◌≤ℤ◌}
use multi_agent_llm_trading.Types.{
  AgentId, Action, Sleeve, DrawdownBucket, VixBucket, OrderSide, OrderType, OrderClass, TimeInForce,
  OrderState, Intent, Order, Fill, AgentState, MarketSnapshot, LotMethod, unit, percent,
  normalize_symbol, times, times_ℤ, over, div_half_even,
}
use multi_agent_llm_trading.Lots.{LotLedger, lot_of_fill, book_fill, total_open_qty, open_lots}
use multi_agent_llm_trading.Lots.Aggregate.{open_qty_by_symbol}
use multi_agent_llm_trading.Sizing.{
  effective_max_gross, vol_targeted_position_value, sizing_multiplier,
}
use multi_agent_llm_trading.Risk.Policy.{is_letf}
use multi_agent_llm_trading.Planner.{
  Planner, PlanContext, Reject, planned, dropped, gross_of, size, guard_plan, qty_of, side_of,
  capped_qty,
}
use multi_agent_llm_trading.Planner.Plan.{plan, plan_close, plan_open, plan_sized, order_at}
use multi_agent_llm_trading.Planner.Notional.{sleeve_gross_notional, mark_of, sum_values}
use multi_agent_llm_trading.Planner.Inversion.{price}
use multi_agent_llm_trading.Planner.Safety.{plan-within_cap}
use multi_agent_llm_trading.Planner.Outcome.{IsAccounted, plan-IsAccounted}
use multi_agent_llm_trading.Planner.Verbs.{exit-flat}
use multi_agent_llm_trading.Planner.Replan.{plan-replan}

abbrev ctx : PlanContext
ctx = record {
  master_capability = percent 100;
  sleeve_weights = λ _. none;
  order_id = 77;
  now = 1000;
}

abbrev state : AgentState
state = record {
  agent_id = AgentId.haiku;
  sleeve_equity = pos (percent 100000);
  sleeve_peak_equity = percent 100000;
  drawdown_bucket = DrawdownBucket.normal;
  drawdown_bucket_entry_date = none;
  consecutive_losses = 0;
  is_benched = false;
  bench_until = none;
  day_trade_count = 0;
  orders_today = 0;
  last_memo_id = none;
}

abbrev cash : AgentState
cash = record state { drawdown_bucket = DrawdownBucket.forced_cash }

-- SPY at 100 and with a volatility of 30%.
abbrev market : MarketSnapshot
market = record {
  current_prices = λ s. if s == "SPY" then some (percent 10000) else none;
  realized_vol_30d = λ s. if s == "SPY" then some (percent 30) else none;
  vix_bucket = VixBucket.sweet_spot;
  timestamp = 1000;
}

abbrev buy : Intent
buy = record {
  id = 1;
  agent_id = AgentId.haiku;
  symbol = "SPY";
  action = Action.buy;
  target_weight = pos (percent 20);
  sleeve = Sleeve.equity;
  signal = "trend";
  conviction = pos 8;
  rationale = "";
  timestamp = 1000;
  regime_observation = "";
  requires_approval = false;
  legs = [];
}

abbrev trim : Intent
trim = record buy { action = Action.sell; target_weight = pos (percent 10) }

abbrev exit : Intent
exit = record buy { action = Action.close }

abbrev fill : Fill
fill = record {
  id = 5;
  order_id = 77;
  agent_id = AgentId.haiku;
  symbol = "SPY";
  side = OrderSide.buy;
  qty = percent 200;
  price = percent 10000;
  timestamp = 2000;
  commission = 0;
  is_partial = false;
}

abbrev planner_of : LotLedger → Planner
planner_of ledger = record {
  ledger = ledger;
  bus = [];
  dropped_no_mark = 0;
  dropped_no_position = 0;
  dropped_sub_min = 0;
  dropped_zero_qty = 0;
  dropped_near_target = 0;
  dropped_already_at_target = 0;
  dropped_sleeve_gross_breach = 0;
}

abbrev empty : Planner
empty = planner_of (record { lots = []; booked = []; db = none })

-- Two shares.
abbrev holding : Planner
holding = planner_of (record { lots = (9, lot_of_fill 9 fill) ∷ []; booked = 5 ∷ []; db = none })

-- An order of this file.
abbrev order : OrderSide → ℕ → Order
order side qty = record {
  id = 77;
  intent_id = 1;
  agent_id = AgentId.haiku;
  symbol = "SPY";
  side = side;
  qty = qty;
  order_type = OrderType.market;
  order_class = OrderClass.simple;
  time_in_force = TimeInForce.day;
  state = OrderState.pending;
  created_at = 1000;
  limit_price = none;
  stop_price = none;
  trail_percent = none;
  broker_order_id = none;
  legs = [];
  submitted_at = none;
  filled_at = none;
  filled_qty = 0;
  filled_avg_price = none;
  rejection_reason = none;
  is_letf = false;
  letf_entry_date = none;
}

buy_eq : (plan ctx buy state market empty).0 ≡ planned (order OrderSide.buy (percent 200))
unfolding plan plan_open plan_sized order_at guard_plan size qty_of side_of capped_qty
    effective_max_gross vol_targeted_position_value sizing_multiplier total_open_qty open_lots
    normalize_symbol sleeve_gross_notional sum_values mark_of open_qty_by_symbol times times_ℤ over
    div_half_even is_letf
buy_eq = refl

exit_eq : (plan ctx exit state market holding).0 ≡ planned (order OrderSide.sell (percent 200))
unfolding plan plan_close effective_max_gross total_open_qty open_lots normalize_symbol times
    div_half_even is_letf
exit_eq = refl

abbrev rebalance : Intent
rebalance = record buy { action = Action.rebalance_to }

sold_down_eq :
    (plan ctx rebalance cash market holding).0 ≡ planned (order OrderSide.sell (percent 200))
unfolding plan plan_open plan_sized order_at guard_plan size qty_of side_of capped_qty
    effective_max_gross vol_targeted_position_value sizing_multiplier total_open_qty open_lots
    normalize_symbol sleeve_gross_notional sum_values mark_of open_qty_by_symbol times times_ℤ over
    div_half_even is_letf
sold_down_eq = refl

-- A REBALANCE_TO below zero with nothing held: a sale of two shares that nobody has.
abbrev naked : Intent
naked = record rebalance { target_weight = ℤ.negsuc (percent 20 - 1) }

naked_eq : (plan ctx naked state market empty).0 ≡ planned (order OrderSide.sell (percent 200))
unfolding plan plan_open plan_sized order_at guard_plan size qty_of side_of capped_qty
    effective_max_gross vol_targeted_position_value sizing_multiplier total_open_qty open_lots
    normalize_symbol sleeve_gross_notional sum_values mark_of open_qty_by_symbol times times_ℤ over
    div_half_even is_letf
naked_eq = refl

plan-within_cap_example :
    (emg : ℕ) × (mark : ℕ) × (value : ℕ) × (gross_of ctx buy state market ≡ some emg)
    × (price ctx buy state market empty ≡ some mark)
    × (0 < percent 200)
    × (2 * (percent 200 * mark) ≤ 2 * (value * unit) + mark)
    × (pos (sleeve_gross_notional AgentId.haiku market empty.ledger + value)
        ≤ℤ times_ℤ (pos emg) state.sleeve_equity)
plan-within_cap_example =
    plan-within_cap ctx buy state market empty (order OrderSide.buy (percent 200)) buy_eq refl refl

plan-IsAccounted_example : IsAccounted ctx buy empty (plan ctx buy state market empty)
plan-IsAccounted_example = plan-IsAccounted ctx buy state market empty

abbrev exit_fill : Fill
exit_fill = record fill { id = 6; side = OrderSide.sell }

exit-flat_example :
    total_open_qty AgentId.haiku "SPY" (book_fill exit_fill LotMethod.fifo 10 holding.ledger) ≡ 0
exit-flat_example =
    exit-flat ctx exit state market holding (order OrderSide.sell (percent 200)) exit_eq refl
      exit_fill LotMethod.fifo 10 (refl, tt, tt) refl refl refl refl refl

spy_symbol : "SPY" ≡ normalize_symbol "SPY"
unfolding normalize_symbol
spy_symbol = refl

spy_affordable :
    (mark : ℕ) → price ctx buy state market empty ≡ some mark → mark ≤ 1000000 * percent 100000
unfolding normalize_symbol
spy_affordable mark h = ground arith

plan-replan_example :
    (reason : Reject) × ((plan ctx buy state market
        (record empty { ledger = book_fill fill LotMethod.fifo 9 empty.ledger })).0
      ≡ dropped reason)
plan-replan_example =
    plan-replan ctx buy state market empty (order OrderSide.buy (percent 200)) fill LotMethod.fifo 9
      buy_eq refl refl refl spy_symbol refl refl refl refl (omega arith) spy_affordable
