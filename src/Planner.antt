-- ===== src/Planner.antt =====
-- execution/planner.py: ExecutionPlanner, from an approved intent to a sized order.
--
-- A Planner is the counters, the ledger that it reads and the events it has published. What a call
-- reads beside its arguments is a PlanContext: the master capability of the runtime store, the
-- Manager's sleeve weights, the id and the time that it draws.
pub mod Notional
pub mod Plan
pub mod Inversion
pub mod Safety
pub mod Rounding
pub mod Replan
pub mod Outcome
pub mod Verbs
mod Examples
use multi_agent_llm_trading.Prelude.{
  ℕ, ◌+◌, ◌*◌, ◌/◌, Bool, true, false, not, ◌&&◌, String, Option, none, some, List, [], ◌∷◌, min,
  push, ltb, leb, eqb, ◌==◌, if◌then◌else◌,
}
use multi_agent_llm_trading.Prelude.Int.{ℤ, pos, pos_part, neg_part, sub_ℕ, leb_ℤ, ltb_ℤ}
use multi_agent_llm_trading.Types.{
  AgentId, Action, action_eq, OrderSide, OrderType, OrderClass, TimeInForce, OrderState, OptionLeg,
  order_side_eq, Intent, Order, AgentState, MarketSnapshot, normalize_symbol, unit, percent, times,
  over, times_ℤ,
}
use multi_agent_llm_trading.Lots.{LotLedger, total_open_qty}
use multi_agent_llm_trading.Sizing.{
  agent_base_vol_target, effective_max_gross, vol_targeted_position_value,
}
use multi_agent_llm_trading.Risk.Policy.{is_letf, is_closing}
use multi_agent_llm_trading.Universes.{estimated_slippage_bps}
use multi_agent_llm_trading.Planner.Notional.{usable_mark, sleeve_gross_notional}

-- PLAN_REJECT_*
pub data Reject : Type 0 where
  sub_min no_position no_mark zero_qty : Reject
  near_target already_at_target sleeve_gross_breach : Reject

-- `binding_constraint` of an event.
pub data Binding : Type 0 where
  vol_target max_gross close : Binding

pub record IntentSizedEvent : Type 0 where
  pub intent_id : ℕ
  pub agent_id : AgentId
  pub symbol : String
  pub target_weight : ℤ
  pub position_value_usd : ℕ
  pub qty : ℕ
  pub effective_vol_target : ℕ
  pub effective_max_gross_val : ℕ
  pub realized_vol_30d : ℕ
  pub binding_constraint : Binding
  pub estimated_slippage_bps : ℕ

pub record Planner : Type 0 where
  pub ledger : LotLedger
  pub bus : List IntentSizedEvent
  pub dropped_no_mark : ℕ
  pub dropped_no_position : ℕ
  pub dropped_sub_min : ℕ
  pub dropped_zero_qty : ℕ
  pub dropped_near_target : ℕ
  pub dropped_already_at_target : ℕ
  pub dropped_sleeve_gross_breach : ℕ

pub record PlanContext : Type 0 where
  pub master_capability : ℕ
  pub sleeve_weights : AgentId → Option ℕ
  pub order_id : ℕ
  pub now : ℕ

-- `raised` is the ValueError of `effective_max_gross`.
pub data PlanResult : Type 0 where
  planned : Order → PlanResult
  dropped : Reject → PlanResult
  raised : PlanResult

-- _MIN_NOTIONAL, _REBALANCE_BAND_PCT, the default volatility, and a step of quantity: 1e-9.
abbrev pub min_notional : ℕ
min_notional = percent 100

abbrev pub rebalance_band_pct : ℕ
rebalance_band_pct = percent 2

abbrev pub default_vol : ℕ
default_vol = percent 8

abbrev pub qty_step : ℕ
qty_step = 1000000000

abbrev pub options_multiplier : ℕ
options_multiplier = 100

-- A counter goes up and the reason is returned.
abbrev pub drop_intent : Reject → Planner → PlanResult × Planner
drop_intent sub_min p = (dropped sub_min, record p { dropped_sub_min = p.dropped_sub_min + 1 })
drop_intent no_position p =
    (dropped no_position, record p { dropped_no_position = p.dropped_no_position + 1 })
drop_intent no_mark p = (dropped no_mark, record p { dropped_no_mark = p.dropped_no_mark + 1 })
drop_intent zero_qty p = (dropped zero_qty, record p { dropped_zero_qty = p.dropped_zero_qty + 1 })
drop_intent near_target p =
    (dropped near_target, record p { dropped_near_target = p.dropped_near_target + 1 })
drop_intent already_at_target p = (
  dropped already_at_target,
  record p { dropped_already_at_target = p.dropped_already_at_target + 1 },
)
drop_intent sleeve_gross_breach p = (
  dropped sleeve_gross_breach,
  record p { dropped_sleeve_gross_breach = p.dropped_sleeve_gross_breach + 1 },
)

-- `bool(intent.legs)`
abbrev pub has_legs : Intent → Bool
has_legs intent = elim intent.legs [ [] ↦ false | _ ∷ _ ↦ true ]

abbrev pub vol_or_default : Option ℕ → ℕ
vol_or_default none = default_vol
vol_or_default (some vol) = vol

-- The gross cap of an agent, `none` where the source raises.
abbrev pub gross_of : PlanContext → Intent → AgentState → MarketSnapshot → Option ℕ
gross_of ctx intent st snap =
    effective_max_gross ctx.sleeve_weights intent.agent_id ctx.master_capability snap.vix_bucket
      st.drawdown_bucket

abbrev pub vol_target_of : PlanContext → Intent → ℕ
vol_target_of ctx intent = times (agent_base_vol_target intent.agent_id) ctx.master_capability

-- The variables of `plan` up to the delta.
pub record Sized : Type 0 where
  pub emg : ℕ
  pub effective_vol_tgt : ℕ
  pub realized_vol : ℕ
  pub target_notional : ℤ
  pub gross_cap : ℤ
  pub binding : Binding
  pub current_qty : ℕ
  pub current_notional : ℕ

abbrev pub notional_at : Option ℕ → ℕ → ℕ
notional_at none qty = 0
notional_at (some mark) qty = times qty mark

unfoldable pub size : ℕ → PlanContext → Intent → AgentState → MarketSnapshot → LotLedger → Sized
size emg ctx intent st snap l =
    let symbol = normalize_symbol intent.symbol in
    let tgt = vol_target_of ctx intent in
    let vol = vol_or_default (snap.realized_vol_30d symbol) in
    let target = vol_targeted_position_value intent.target_weight st.sleeve_equity vol tgt in
    let cap = times_ℤ (pos emg) st.sleeve_equity in
    let qty = if has_legs intent then 0 else total_open_qty intent.agent_id symbol l in
    record {
      emg = emg;
      effective_vol_tgt = tgt;
      realized_vol = vol;
      target_notional = if ltb_ℤ cap target then cap else target;
      gross_cap = cap;
      binding = if ltb_ℤ cap target then max_gross else vol_target;
      current_qty = qty;
      current_notional =
          if has_legs intent then 0 else notional_at (usable_mark (snap.current_prices symbol)) qty;
    }

-- target_notional - current_notional
abbrev pub delta_notional : Sized → ℤ
delta_notional s =
    sub_ℕ (pos_part s.target_notional) (neg_part s.target_notional + s.current_notional)

abbrev pub abs_ℤ : ℤ → ℕ
abs_ℤ z = pos_part z + neg_part z

abbrev pub signed_value : Intent → Sized → ℤ
signed_value intent s =
    if has_legs intent then s.target_notional else pos (abs_ℤ (delta_notional s))

-- `position_value`, past the guard that lets only a dollar or more through.
abbrev pub position_value : Intent → Sized → ℕ
position_value intent s = pos_part (signed_value intent s)

-- The guards between the delta and the mark, in their order.
unfoldable pub guard_plan : Intent → AgentState → MarketSnapshot → LotLedger → Sized → Option Reject
guard_plan intent st snap l s =
    let delta = delta_notional s in
    if intent.action == Action.buy && leb_ℤ delta (pos 0)
    then some already_at_target
    else if intent.action == Action.sell && leb_ℤ (pos 0) delta
    then some near_target
    else if ltb_ℤ (pos 0) st.sleeve_equity
        && ltb (over (abs_ℤ delta) (pos_part st.sleeve_equity)) rebalance_band_pct
    then some near_target
    else if not (has_legs intent)
        && (ltb_ℤ (pos 0) delta
            && ltb_ℤ s.gross_cap
                (pos (sleeve_gross_notional intent.agent_id snap l + pos_part delta)))
    then some sleeve_gross_breach
    else if ltb_ℤ (signed_value intent s) (pos min_notional)
    then some sub_min
    else none

-- Whole contracts for options, the broker's precision otherwise, both rounded down.
unfoldable pub qty_of : Bool → ℕ → ℕ → ℕ
qty_of is_options value mark =
    if is_options
    then over value (mark * options_multiplier) / unit * unit
    else over value mark / qty_step * qty_step

unfoldable pub side_of : Intent → Sized → OrderSide
side_of intent s =
    if has_legs intent
    then (if is_closing intent.action then OrderSide.sell else OrderSide.buy)
    else if intent.action == Action.sell
    then OrderSide.sell
    else if intent.action == Action.rebalance_to
    then (if ltb_ℤ (delta_notional s) (pos 0) then OrderSide.sell else OrderSide.buy)
    else OrderSide.buy

-- A sale is for no more than what is held.
unfoldable pub capped_qty : Intent → Sized → ℕ → ℕ
unfolding side_of
capped_qty intent s qty =
    if side_of intent s == OrderSide.sell && (not (has_legs intent) && ltb 0 s.current_qty)
    then min qty s.current_qty
    else qty

-- The Order, with the defaults of its dataclass.
abbrev pub new_order : PlanContext → Intent → OrderSide → ℕ → OrderClass → List OptionLeg → Order
new_order ctx intent side qty order_class legs = record {
  id = ctx.order_id;
  intent_id = intent.id;
  agent_id = intent.agent_id;
  symbol = normalize_symbol intent.symbol;
  side = side;
  qty = qty;
  order_type = OrderType.market;
  order_class = order_class;
  time_in_force = TimeInForce.day;
  state = OrderState.pending;
  created_at = ctx.now;
  limit_price = none;
  stop_price = none;
  trail_percent = none;
  broker_order_id = none;
  legs = legs;
  submitted_at = none;
  filled_at = none;
  filled_qty = 0;
  filled_avg_price = none;
  rejection_reason = none;
  is_letf = is_letf (normalize_symbol intent.symbol);
  letf_entry_date = none;
}
