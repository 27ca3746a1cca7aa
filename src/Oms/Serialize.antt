-- ===== src/Oms/Serialize.antt =====
-- `_serialize_order` and `_deserialize_order`. (JSON keeps each value; a fill loses nothing.)
use multi_agent_llm_trading.Prelude.{◌≡◌, ◌↔◌, none, [], arith}
use multi_agent_llm_trading.Types.{Order}
use multi_agent_llm_trading.Oms.Vocabulary.{OrderPayload}

unfoldable pub serialize_order : Order → OrderPayload
serialize_order o = record {
  id = o.id;
  intent_id = o.intent_id;
  agent_id = o.agent_id;
  symbol = o.symbol;
  side = o.side;
  qty = o.qty;
  order_type = o.order_type;
  order_class = o.order_class;
  time_in_force = o.time_in_force;
  state = o.state;
  created_at = o.created_at;
  limit_price = o.limit_price;
  stop_price = o.stop_price;
  is_letf = o.is_letf;
}

unfoldable pub deserialize_order : OrderPayload → Order
deserialize_order p = record {
  id = p.id;
  intent_id = p.intent_id;
  agent_id = p.agent_id;
  symbol = p.symbol;
  side = p.side;
  qty = p.qty;
  order_type = p.order_type;
  order_class = p.order_class;
  time_in_force = p.time_in_force;
  state = p.state;
  created_at = p.created_at;
  limit_price = p.limit_price;
  stop_price = p.stop_price;
  trail_percent = none;
  broker_order_id = none;
  legs = [];
  submitted_at = none;
  filled_at = none;
  filled_qty = 0;
  filled_avg_price = none;
  rejection_reason = none;
  is_letf = p.is_letf;
  letf_entry_date = none;
}

-- What the log does not keep of an order.
pub record IsPlain (o : Order) : Type 0 where
  pub no_trail : o.trail_percent ≡ none
  pub no_broker_id : o.broker_order_id ≡ none
  pub no_legs : o.legs ≡ []
  pub not_submitted : o.submitted_at ≡ none
  pub not_filled : o.filled_at ≡ none
  pub nothing_filled : o.filled_qty ≡ 0
  pub no_average : o.filled_avg_price ≡ none
  pub no_reason : o.rejection_reason ≡ none
  pub no_letf_date : o.letf_entry_date ≡ none

-- An order comes back from the log as it was exactly when it is new and has no legs, no trailing
-- percentage and no LETF entry date: those three the log forgets.
pub deserialize-serialize_order :
    (o : Order) → (deserialize_order (serialize_order o) ≡ o) ↔ IsPlain o
unfolding serialize_order deserialize_order
deserialize-serialize_order o = (λ e. ground arith, λ h. ground arith)
