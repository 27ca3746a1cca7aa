-- ===== src/FakeBroker/Orders.antt =====
-- execution/fake_broker.py: the calls that FakeBroker takes, from the OMS and from tests.
use multi_agent_llm_trading.Prelude.{
  ℕ, ◌+◌, ◌-◌, ◌*◌, String, Bool, true, false, Option, none, some, List, [], ◌∷◌, ◌++◌, map, keep,
  ltb, leb, nat_eq, string_eq, if◌then◌else◌,
}
use multi_agent_llm_trading.Prelude.Int.{ℤ, pos, pos_part, neg_part, sub_ℕ, ◌+ℤ◌}
use multi_agent_llm_trading.Prelude.Dict.{Dict, lookup, insert}
use multi_agent_llm_trading.Types.{Order, Fill, div_half_even}
use multi_agent_llm_trading.Oms.Vocabulary.{
  BrokerOrderState, BrokerOrderStatus, BrokerPosition, BrokerAccount,
}
use multi_agent_llm_trading.FakeBroker.{
  FillMode, key_error, value_error, broker_rejection, broker_unavailable, BrokerOrder, FakeBroker,
  Reply, returns, raises, Call, emit, put_order, price_or, price_for, event_of, record_fill,
}

-- What a call draws from outside: a broker id, a fill id, and readings of the clock, at the
-- submission and at the fill.
pub record Draws : Type 0 where
  pub broker_id : String
  pub fill_id : ℕ
  pub now : ℕ
  pub filled_at : ℕ

-- The status of an order that is new to the broker.
abbrev pub fresh_status : Draws → Order → BrokerOrderState → Option String → BrokerOrderStatus
fresh_status draws order state reason = record {
  broker_order_id = draws.broker_id;
  client_order_id = order.id;
  symbol = order.symbol;
  side = order.side;
  qty = order.qty;
  filled_qty = 0;
  avg_fill_price = none;
  state = state;
  submitted_at = draws.now;
  updated_at = draws.now;
  rejection_reason = reason;
}

abbrev pub fresh_order : Draws → Order → BrokerOrderState → Option String → BrokerOrder
fresh_order draws order state reason = record {
  status = fresh_status draws order state reason;
  fills = [];
  agent_id = order.agent_id;
  limit_price = order.limit_price;
}

-- The order is recorded and its first event is sent.
unfoldable pub enter_order :
    Draws → Order → BrokerOrderState → Option String → FakeBroker → FakeBroker
enter_order draws order state reason b =
    let rec = fresh_order draws order state reason in
    emit (event_of rec.status state none reason draws.now) (
      put_order draws.broker_id rec
        (record b { client_to_broker = insert order.id draws.broker_id b.client_to_broker }))

-- What follows a call that returned.
abbrev pub then_returns : {A B : Type 0} → B → Call A → Call B
then_returns x (returns _, b) = (returns x, b)
then_returns x (raises e, b) = (raises e, b)

-- `_record_fill` on the order that has just been entered.
abbrev pub fill_new : Draws → Order → ℕ → FakeBroker → Call String
fill_new draws order qty b = then_returns draws.broker_id (
    record_fill draws.broker_id draws.fill_id qty (price_for order.symbol order.limit_price b)
      draws.filled_at (fresh_order draws order BrokerOrderState.accepted none) b)

-- What each fill mode does with an order that it has not seen.
abbrev pub take_order : FillMode → Draws → Order → FakeBroker → Call String
take_order FillMode.reject draws order b = (
  raises broker_rejection,
  enter_order draws order BrokerOrderState.rejected (some "fake_broker REJECT mode") b,
)
take_order FillMode.manual draws order b =
    (returns draws.broker_id, enter_order draws order BrokerOrderState.accepted none b)
take_order FillMode.instant draws order b =
    fill_new draws order order.qty (enter_order draws order BrokerOrderState.accepted none b)
take_order FillMode.partial_then_hold draws order b =
    fill_new draws order (div_half_even order.qty 2)
      (enter_order draws order BrokerOrderState.accepted none b)

unfoldable pub submit_order : Draws → Order → FakeBroker → Call String
unfolding enter_order record_fill
submit_order draws order b = elim b.raise_on_next_submit [
  | some error ↦ (raises error, record b { raise_on_next_submit = none })
  | none ↦ elim (lookup order.id b.client_to_broker) [
    | some existing ↦ (returns existing, b)
    | none ↦ take_order b.fill_mode draws order b
  ]
]

-- FILLED, CANCELED, REJECTED, EXPIRED.
abbrev pub is_over : BrokerOrderState → Bool
is_over BrokerOrderState.filled = true
is_over BrokerOrderState.canceled = true
is_over BrokerOrderState.rejected = true
is_over BrokerOrderState.expired = true
is_over _ = false

abbrev pub with_state : BrokerOrderState → Option String → ℕ → BrokerOrder → BrokerOrder
with_state state reason now rec = record rec {
  status = record rec.status { state = state; rejection_reason = reason; updated_at = now };
}

unfoldable pub cancel_order : String → ℕ → FakeBroker → Call (Unit {0})
cancel_order broker_id now b = elim b.raise_on_next_cancel [
  | some error ↦ (raises error, record b { raise_on_next_cancel = none })
  | none ↦ elim (lookup broker_id b.orders) [
    | none ↦ (raises broker_unavailable, b)
    | some rec ↦
        let canceled = with_state BrokerOrderState.canceled rec.status.rejection_reason now rec in
        let event = record (event_of rec.status BrokerOrderState.canceled none none now) {
          broker_order_id = broker_id;
        } in
        if is_over rec.status.state
        then (returns tt, b)
        else (returns tt, emit event (put_order broker_id canceled b))
  ]
]

unfoldable pub get_order : String → FakeBroker → Reply BrokerOrderStatus
get_order broker_id b = elim (lookup broker_id b.orders) [
  | none ↦ raises broker_unavailable
  | some rec ↦ returns rec.status
]

unfoldable pub find_order_by_client_id : ℕ → FakeBroker → Reply (Option BrokerOrderStatus)
find_order_by_client_id client_id b = elim (lookup client_id b.client_to_broker) [
  | none ↦ returns none
  | some broker_id ↦ elim (lookup broker_id b.orders) [
    | none ↦ raises key_error
    | some rec ↦ returns (some rec.status)
  ]
]

abbrev pub list_positions : FakeBroker → List BrokerPosition
list_positions b = map (λ e. e.1) b.positions

-- `p.qty * p.current_price`
abbrev pub market_value : BrokerPosition → ℤ
market_value p = sub_ℕ (pos_part p.qty * p.current_price) (neg_part p.qty * p.current_price)

abbrev pub sum_values : List BrokerPosition → ℤ
sum_values [] = pos 0
sum_values (p ∷ ps) = market_value p +ℤ sum_values ps

unfoldable pub get_account : FakeBroker → BrokerAccount
get_account b = record {
  cash = b.cash;
  equity = b.cash +ℤ sum_values (list_positions b);
  buying_power = b.cash +ℤ b.cash;
  pattern_day_trader = false;
  daytrade_count = 0;
}

-- The lookup that the three forcing calls begin with.
abbrev pub with_client_order :
    ℕ → (String → BrokerOrder → Call (Unit {0})) → FakeBroker → Call (Unit {0})
with_client_order client_id f b = elim (lookup client_id b.client_to_broker) [
  | none ↦ (raises key_error, b)
  | some broker_id ↦ elim (lookup broker_id b.orders) [
    | none ↦ (raises key_error, b)
    | some rec ↦ f broker_id rec
  ]
]

-- `price if price is not None else self._price_for(symbol)`
abbrev pub forced_price : Option ℕ → String → FakeBroker → ℕ
forced_price price symbol b = price_or price (some (price_for symbol none b))

unfoldable pub force_full_fill : ℕ → Option ℕ → ℕ → ℕ → FakeBroker → Call (Unit {0})
unfolding record_fill
force_full_fill client_id price fill_id now b =
    with_client_order client_id
      (λ broker_id rec.
        if leb rec.status.qty rec.status.filled_qty
        then (returns tt, b)
        else record_fill broker_id fill_id (rec.status.qty - rec.status.filled_qty)
            (forced_price price rec.status.symbol b) now rec b)
      b

unfoldable pub force_partial_fill : ℕ → ℕ → Option ℕ → ℕ → ℕ → FakeBroker → Call (Unit {0})
unfolding record_fill
force_partial_fill client_id qty price fill_id now b =
    with_client_order client_id
      (λ broker_id rec.
        if ltb rec.status.qty (rec.status.filled_qty + qty)
        then (raises value_error, b)
        else record_fill broker_id fill_id qty (forced_price price rec.status.symbol b) now rec b)
      b

unfoldable pub force_reject : ℕ → String → ℕ → FakeBroker → Call (Unit {0})
force_reject client_id reason now b =
    with_client_order client_id
      (λ broker_id rec.
        let event = record (event_of rec.status BrokerOrderState.rejected none (some reason) now) {
          broker_order_id = broker_id;
          client_order_id = client_id;
        } in
        (
          returns tt,
          emit event
              (put_order broker_id (with_state BrokerOrderState.rejected (some reason) now rec) b),
        ))
      b

-- NEW, ACCEPTED, PARTIALLY_FILLED.
abbrev pub is_open : BrokerOrderState → Bool
is_open BrokerOrderState.new = true
is_open BrokerOrderState.accepted = true
is_open BrokerOrderState.partially_filled = true
is_open _ = false

abbrev pub open_orders : FakeBroker → List BrokerOrderStatus
open_orders b = keep (λ s. is_open s.state) (map (λ e. e.1.status) b.orders)

abbrev pub fills_in : Dict String BrokerOrder → List Fill
fills_in [] = []
fills_in ((_, rec) ∷ d) = rec.fills ++ fills_in d

abbrev pub all_fills : FakeBroker → List Fill
all_fills b = fills_in b.orders
