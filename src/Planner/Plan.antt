-- ===== src/Planner/Plan.antt =====
-- `plan` and `_plan_close` of ExecutionPlanner.
use multi_agent_llm_trading.Prelude.{
  ℕ, Bool, ◌&&◌, ◌||◌, Option, none, some, [], push, ltb, eqb, ◌==◌, if◌then◌else◌,
}
use multi_agent_llm_trading.Prelude.Int.{pos, leb_ℤ}
use multi_agent_llm_trading.Types.{
  Action, action_eq, OrderSide, OrderClass, Intent, AgentState, MarketSnapshot, normalize_symbol,
  times,
}
use multi_agent_llm_trading.Lots.{total_open_qty}
use multi_agent_llm_trading.Universes.{estimated_slippage_bps}
use multi_agent_llm_trading.Planner.{
  Planner, PlanContext, PlanResult, Sized, IntentSizedEvent, close, planned, raised, no_position,
  no_mark, sub_min, zero_qty, drop_intent, min_notional, default_vol, gross_of, vol_target_of, size,
  guard_plan, position_value, qty_of, side_of, capped_qty, has_legs, new_order,
}
use multi_agent_llm_trading.Planner.Notional.{usable_mark}

abbrev pub publish_sized : IntentSizedEvent → Planner → Planner
publish_sized event p = record p { bus = push p.bus event }

-- The order and the event of an exit.
abbrev pub emit_close : ℕ → PlanContext → Intent → ℕ → ℕ → Planner → PlanResult × Planner
emit_close emg ctx intent open_qty notional p = (
  planned (new_order ctx intent OrderSide.sell open_qty OrderClass.simple []),
  publish_sized
      (record {
        intent_id = intent.id;
        agent_id = intent.agent_id;
        symbol = normalize_symbol intent.symbol;
        target_weight = pos 0;
        position_value_usd = notional;
        qty = open_qty;
        effective_vol_target = vol_target_of ctx intent;
        effective_max_gross_val = emg;
        realized_vol_30d = default_vol;
        binding_constraint = close;
        estimated_slippage_bps = estimated_slippage_bps (normalize_symbol intent.symbol);
      })
      p,
)

-- `_plan_close`
unfoldable pub plan_close :
    PlanContext → Intent → AgentState → MarketSnapshot → Planner → PlanResult × Planner
plan_close ctx intent st snap p =
    let symbol = normalize_symbol intent.symbol in
    let open_qty = total_open_qty intent.agent_id symbol p.ledger in
    if eqb open_qty 0
    then drop_intent no_position p
    else elim (usable_mark (snap.current_prices symbol)) [
      | none ↦ drop_intent no_mark p
      | some mark ↦
          let notional = times open_qty mark in
          if ltb notional min_notional
          then drop_intent sub_min p
          else elim (gross_of ctx intent st snap) [
            | none ↦ (raised, p)
            | some emg ↦ emit_close emg ctx intent open_qty notional p
          ]
    ]

-- The order and the event of a sized intent.
abbrev pub emit_sized : PlanContext → Intent → Sized → ℕ → Planner → PlanResult × Planner
emit_sized ctx intent s qty p = (
  planned (
      new_order ctx intent (side_of intent s) qty
        (if has_legs intent then OrderClass.mleg else OrderClass.simple) intent.legs),
  publish_sized
      (record {
        intent_id = intent.id;
        agent_id = intent.agent_id;
        symbol = normalize_symbol intent.symbol;
        target_weight = intent.target_weight;
        position_value_usd = position_value intent s;
        qty = qty;
        effective_vol_target = s.effective_vol_tgt;
        effective_max_gross_val = s.emg;
        realized_vol_30d = s.realized_vol;
        binding_constraint = s.binding;
        estimated_slippage_bps = estimated_slippage_bps (normalize_symbol intent.symbol);
      })
      p,
)

-- From the mark on.
unfoldable pub order_at : PlanContext → Intent → Sized → Option ℕ → Planner → PlanResult × Planner
order_at ctx intent s none p = drop_intent no_mark p
order_at ctx intent s (some mark) p =
    let qty = qty_of (has_legs intent) (position_value intent s) mark in
    if eqb qty 0
    then drop_intent zero_qty p
    else emit_sized ctx intent s (capped_qty intent s qty) p

-- From the guards on.
unfoldable pub plan_sized :
    PlanContext → Intent → AgentState → MarketSnapshot → Sized → Planner → PlanResult × Planner
unfolding order_at
plan_sized ctx intent st snap s p = elim (guard_plan intent st snap p.ledger s) [
  | some reason ↦ drop_intent reason p
  | none ↦
      order_at ctx intent s (usable_mark (snap.current_prices (normalize_symbol intent.symbol))) p
]

-- From the sizing on.
unfoldable pub plan_open :
    PlanContext → Intent → AgentState → MarketSnapshot → Planner → PlanResult × Planner
unfolding plan_sized
plan_open ctx intent st snap p = elim (gross_of ctx intent st snap) [
  | none ↦ (raised, p)
  | some emg ↦ plan_sized ctx intent st snap (size emg ctx intent st snap p.ledger) p
]

-- A close, or a sale down to nothing.
abbrev pub is_exit : Intent → Bool
is_exit intent =
    intent.action == Action.close
    || (intent.action == Action.sell && leb_ℤ intent.target_weight (pos 0))

unfoldable pub plan :
    PlanContext → Intent → AgentState → MarketSnapshot → Planner → PlanResult × Planner
unfolding plan_close plan_open
plan ctx intent st snap p =
    let held = total_open_qty intent.agent_id (normalize_symbol intent.symbol) p.ledger in
    if is_exit intent
    then plan_close ctx intent st snap p
    else if intent.action == Action.sell && eqb held 0
    then drop_intent no_position p
    else plan_open ctx intent st snap p
