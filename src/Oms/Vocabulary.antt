-- ===== src/Oms/Vocabulary.antt =====
-- The broker's vocabulary (execution/broker.py), the rows of the event log (execution/oms_store.py)
-- and the events that the OMS publishes (core/events.py).
use multi_agent_llm_trading.Prelude.{ℕ, String, Bool, Option}
use multi_agent_llm_trading.Prelude.Int.{ℤ}
use multi_agent_llm_trading.Types.{
  AgentId, AssetClass, OrderSide, OrderType, OrderClass, TimeInForce, OrderState, Order, Fill,
}

pub data BrokerOrderState : Type 0 where
  new accepted partially_filled filled canceled rejected expired unknown : BrokerOrderState

pub record BrokerOrderStatus : Type 0 where
  pub broker_order_id : String
  pub client_order_id : ℕ
  pub symbol : String
  pub side : OrderSide
  pub qty : ℕ
  pub filled_qty : ℕ
  pub avg_fill_price : Option ℕ
  pub state : BrokerOrderState
  pub submitted_at : ℕ
  pub updated_at : ℕ
  pub rejection_reason : Option String

-- A held position; a short one has a negative quantity.
pub record BrokerPosition : Type 0 where
  pub symbol : String
  pub qty : ℤ
  pub avg_entry_price : ℕ
  pub current_price : ℕ
  pub asset_class : AssetClass

-- Amounts in units of 10^-36.
pub record BrokerAccount : Type 0 where
  pub cash : ℤ
  pub equity : ℤ
  pub buying_power : ℤ
  pub pattern_day_trader : Bool
  pub daytrade_count : ℕ

pub record BrokerOrderEvent : Type 0 where
  pub broker_order_id : String
  pub client_order_id : ℕ
  pub new_state : BrokerOrderState
  pub fill : Option Fill
  pub rejection_reason : Option String
  pub timestamp : Option ℕ

-- The dict that `_serialize_order` writes.
pub record OrderPayload : Type 0 where
  pub id : ℕ
  pub intent_id : ℕ
  pub agent_id : AgentId
  pub symbol : String
  pub side : OrderSide
  pub qty : ℕ
  pub order_type : OrderType
  pub order_class : OrderClass
  pub time_in_force : TimeInForce
  pub state : OrderState
  pub created_at : ℕ
  pub limit_price : Option ℕ
  pub stop_price : Option ℕ
  pub is_letf : Bool

-- A kind of event with its payload. That of a fill has every field of it.
pub data EventKind : Type 0 where
  order_submit_intent : OrderPayload → EventKind
  order_accepted : (broker_order_id : String) → EventKind
  order_rejected : (reason : String) → EventKind
  fill_received : Fill → EventKind
  order_cancel_requested : (broker_order_id : String) → EventKind
  order_cancelled : (reason : Option String) → EventKind
  order_expired : EventKind
  reconcile_noop reconcile_recovered : (broker_state : BrokerOrderState) → EventKind
  reconcile_abandoned : (reason : String) → EventKind

-- A row of the log. `seq` is its position.
pub record LoggedEvent : Type 0 where
  pub ts : ℕ
  pub kind : EventKind
  pub order_id : ℕ

pub data BusEvent : Type 0 where
  order_placed : Order → BusEvent
  order_state_changed : (order_id : ℕ) (old_state new_state : OrderState) (ts : ℕ) → BusEvent
  fill_published : Fill → BusEvent
