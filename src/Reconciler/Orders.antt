-- ===== src/Reconciler/Orders.antt =====
-- execution/reconciler.py: `_reconcile_orders`, with the listings of execution/oms.py that it reads.
use multi_agent_llm_trading.Prelude.{
  ℕ, ◌+◌, ◌-◌, Bool, true, false, not, String, Option, none, some, List, [], ◌∷◌, map, keep, nat_eq,
  ltb, if◌then◌else◌,
}
use multi_agent_llm_trading.Prelude.Dict.{lookup}
use multi_agent_llm_trading.Types.{OrderState, Order, Fill}
use multi_agent_llm_trading.Fsm.OrderFsm.{is_terminal}
use multi_agent_llm_trading.Oms.Vocabulary.{BrokerOrderState, BrokerOrderStatus, BrokerOrderEvent}
use multi_agent_llm_trading.Oms.State.{Oms, Outcome, ok}
use multi_agent_llm_trading.Oms.Handlers.{on_broker_event, force_close_filled}
use multi_agent_llm_trading.Oms.Api.{and_then}
use multi_agent_llm_trading.Oms.Recover.{price_or_zero, is_not_filled}

abbrev pub list_orders : Oms → List Order
list_orders o = map (λ e. e.1.order) o.entries

-- PENDING, SUBMITTED, ACCEPTED, PARTIAL: the states that are not terminal.
abbrev pub list_open_orders : Oms → List Order
list_open_orders o = keep (λ order. not (is_terminal order.state)) (list_orders o)

abbrev pub get_fills : ℕ → Oms → List Fill
get_fills order_id o = elim (lookup order_id o.entries) [ none ↦ [] | some e ↦ e.fills ]

-- A state of the broker's that the OMS has to hear of.
abbrev pub is_news : BrokerOrderState → Bool
is_news BrokerOrderState.filled = true
is_news BrokerOrderState.partially_filled = true
is_news BrokerOrderState.canceled = true
is_news BrokerOrderState.rejected = true
is_news BrokerOrderState.expired = true
is_news _ = false

-- `_status_requires_update`
abbrev pub status_requires_update : OrderState → BrokerOrderState → Bool
status_requires_update oms_state broker_state =
    if is_terminal oms_state then false else is_news broker_state

abbrev pub is_fill_state : BrokerOrderState → Bool
is_fill_state BrokerOrderState.filled = true
is_fill_state BrokerOrderState.partially_filled = true
is_fill_state _ = false

-- The fill for what the broker has filled and the OMS has not recorded.
abbrev pub catch_up_fill : ℕ → BrokerOrderStatus → Order → Fill
catch_up_fill fill_id status order = record {
  id = fill_id;
  order_id = order.id;
  agent_id = order.agent_id;
  symbol = order.symbol;
  side = order.side;
  qty = status.filled_qty - order.filled_qty;
  price = price_or_zero status.avg_fill_price;
  timestamp = status.updated_at;
  commission = 0;
  is_partial = is_not_filled status.state;
}

abbrev pub status_event : BrokerOrderStatus → Option Fill → BrokerOrderEvent
status_event status fill = record {
  broker_order_id = status.broker_order_id;
  client_order_id = status.client_order_id;
  new_state = status.state;
  fill = fill;
  rejection_reason = none;
  timestamp = some status.updated_at;
}

-- The update of an order, which counts as one whatever it does.
unfoldable pub update_order : ℕ → ℕ → BrokerOrderStatus → Order → Oms → Outcome ℕ
update_order fill_id now status order o =
    let counted : Outcome (Unit {0}) → Outcome ℕ = λ out. and_then out (λ _ o'. (ok 1, o')) in
    if is_fill_state status.state
    then if ltb order.filled_qty status.filled_qty
      then counted
          (on_broker_event now (status_event status (some (catch_up_fill fill_id status order))) o)
      else if is_not_filled status.state
      then counted (on_broker_event now (status_event status none) o)
      else counted (force_close_filled order.id status.updated_at o)
    else counted (on_broker_event now (status_event status none) o)

-- One order of the loop: how many it adds to `updated`.
unfoldable pub check_order :
    (String → Option BrokerOrderStatus) → (ℕ → ℕ) → ℕ → Order → Oms → Outcome ℕ
unfolding update_order
check_order get_order fill_id now order o = elim order.broker_order_id [
  | none ↦ (ok 0, o)
  | some bid ↦ elim (get_order bid) [
    | none ↦ (ok 0, o)
    | some status ↦
        if status_requires_update order.state status.state
        then update_order (fill_id order.id) now status order o
        else (ok 0, o)
  ]
]

-- The orders are those of the snapshot that was taken before the loop.
unfoldable pub reconcile_orders :
    (String → Option BrokerOrderStatus) → (ℕ → ℕ) → ℕ → List Order → ℕ → Oms → Outcome ℕ
unfolding check_order
reconcile_orders get_order fill_id now [] updated o = (ok updated, o)
reconcile_orders get_order fill_id now (order ∷ orders) updated o =
    and_then (check_order get_order fill_id now order o)
      (λ n o'. reconcile_orders get_order fill_id now orders (updated + n) o')
