-- ===== src/Risk/Checks.antt =====
-- The checks of the risk gate that change nothing: each gives its veto, if it has one.
use multi_agent_llm_trading.Prelude.{
  ℕ, ◌+◌, ◌-◌, Bool, true, false, not, ◌&&◌, String, Option, none, some, List, [], ◌∷◌, min,
  string_eq, ◌==◌, ltb, if◌then◌else◌,
}
use multi_agent_llm_trading.Prelude.Int.{ℤ, pos, pos_part, neg_part, ◌+ℤ◌, ltb_ℤ, is_zero_ℤ}
use multi_agent_llm_trading.Types.{
  AgentId, agent_id_eq, KillSwitchState, kill_switch_state_eq, DrawdownBucket, drawdown_bucket_eq,
  Sleeve, sleeve_eq, OrderSide, order_side_eq, OptionLeg, Intent, Position, Lot, AgentState,
  date_of, times, over_ℤ,
}
use multi_agent_llm_trading.KillSwitch.{KillSwitchEngine, can_open_new}
use multi_agent_llm_trading.Tax.{WashSaleRecord, is_blocked, days_remaining}
use multi_agent_llm_trading.Lots.{LotLedger, open_lots}
use multi_agent_llm_trading.Risk.Policy.{
  Veto, liquidating, entries_blocked, wash_sale, wash_sale_proxy, letf_held, options_exposure,
  options_naked, options_one_sided, is_opening, is_closing, proxy_of, letf_max_hold_calendar_days,
  options_max_sleeve_fraction,
}

-- The first of two checks that has a veto.
abbrev pub first : Option Veto → Option Veto → Option Veto
first none later = later
first (some v) later = some v

-- 1 and 2.
unfoldable pub check_kill_switch : Intent → KillSwitchEngine → Option Veto
unfolding can_open_new
check_kill_switch intent k =
    if k.state == KillSwitchState.drawdown_liquidate && not (is_closing intent.action)
    then some (liquidating k.state)
    else if is_opening intent.action && not (can_open_new k)
    then some (entries_blocked k.state)
    else none

-- 4.
unfoldable pub check_forced_cash : Intent → AgentState → Option Veto
check_forced_cash intent agent_state =
    if agent_state.drawdown_bucket == DrawdownBucket.forced_cash && is_opening intent.action
    then some Veto.forced_cash
    else none

-- The second half of `_check_wash_sale`: a proxy that is blocked.
abbrev check_proxy : Intent → ℕ → List WashSaleRecord → Option String → Option Veto
check_proxy intent today wash none = none
check_proxy intent today wash (some proxy) =
    if is_blocked intent.agent_id proxy today wash
    then some
        (wash_sale_proxy intent.symbol proxy (days_remaining intent.agent_id proxy today wash))
    else none

-- 5: `_check_wash_sale`.
unfoldable pub check_wash_sale : Intent → ℕ → List WashSaleRecord → Option Veto
check_wash_sale intent ts wash =
    let today = date_of ts in
    if is_blocked intent.agent_id intent.symbol today wash
    then some (wash_sale intent.symbol (days_remaining intent.agent_id intent.symbol today wash))
    else check_proxy intent today wash (proxy_of intent.symbol)

-- `min(lot.entry_date for lot in open_lots)`, of a first lot and the others.
unfoldable pub oldest_entry : Lot → List Lot → ℕ
oldest_entry lot [] = lot.entry_date
oldest_entry lot (other ∷ lots) = min lot.entry_date (oldest_entry other lots)

-- Days that the oldest open lot has been held, `none` without open lots. A lot of a later day
-- counts 0 days, where the source has a negative number; neither is above the limit.
abbrev pub days_held : ℕ → List Lot → Option ℕ
days_held today [] = none
days_held today (lot ∷ lots) = some (today - oldest_entry lot lots)

abbrev pub is_overheld : Option ℕ → Bool
is_overheld none = false
is_overheld (some days) = ltb letf_max_hold_calendar_days days

abbrev held_veto : String → Option ℕ → Option Veto
held_veto symbol none = none
held_veto symbol (some days) =
    if ltb letf_max_hold_calendar_days days then some (letf_held symbol days) else none

-- 7: `_check_letf`.
unfoldable pub check_letf : Intent → ℕ → LotLedger → Option Veto
check_letf intent ts lots =
    if is_closing intent.action
    then none
    else held_veto intent.symbol
        (days_held (date_of ts) (open_lots intent.agent_id intent.symbol lots))

-- The value of an agent's option positions.
unfoldable pub options_value : AgentId → List Position → ℕ
options_value agent_id [] = 0
options_value agent_id (p ∷ ps) =
    (if p.agent_id == agent_id && p.sleeve == Sleeve.options
      then times (pos_part p.qty + neg_part p.qty) p.current_price
      else 0)
    + options_value agent_id ps

-- 8: `_check_options`.
unfoldable pub check_options : Intent → List Position → ℤ → Option Veto
unfolding options_value
check_options intent positions sleeve_equity =
    let new_fraction =
      over_ℤ (options_value intent.agent_id positions) sleeve_equity +ℤ intent.target_weight in
    if is_zero_ℤ sleeve_equity
    then none
    else if ltb_ℤ (pos options_max_sleeve_fraction) new_fraction
    then some (options_exposure intent.symbol new_fraction)
    else none

-- Whether every leg is on one side.
unfoldable pub all_on : OrderSide → List OptionLeg → Bool
all_on side [] = true
all_on side (leg ∷ legs) = leg.side == side && all_on side legs

-- 9: `_check_options_structure`, on the legs.
abbrev check_legs : String → List OptionLeg → Option Veto
check_legs symbol [] = some (options_naked symbol)
check_legs symbol (leg ∷ legs) =
    if all_on leg.side legs then some (options_one_sided symbol leg.side) else none

unfoldable pub check_options_structure : Intent → Option Veto
unfolding all_on
check_options_structure intent = check_legs intent.symbol intent.legs
