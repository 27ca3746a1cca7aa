-- ===== src/FakeBroker.antt =====
-- execution/fake_broker.py: FakeBroker, the in-memory broker of the tests and of offline runs.
--
-- `callback` holds what the registered callback has been given, `none` before one is registered.
-- Broker ids, fill ids and clock readings are arguments. Cash is in units of 10^-36, those of a
-- product of a quantity and a price.
pub mod Ledger
pub mod Index
pub mod Orders
pub mod Requests
pub mod Fills
pub mod Repeat
pub mod Wired
pub mod Histories
pub mod Books
mod Examples
use multi_agent_llm_trading.Prelude.{
  ℕ, ◌+◌, ◌-◌, ◌*◌, String, Bool, true, false, not, ◌&&◌, ◌||◌, Option, none, some, List, [], ◌∷◌,
  ◌++◌, map, keep, push, ltb, leb, eqb, nat_eq, string_eq, ◌==◌, if◌then◌else◌,
}
use multi_agent_llm_trading.Prelude.Int.{ℤ, pos, pos_part, neg_part, sub_ℕ, ◌+ℤ◌, ◌-ℤ◌}
use multi_agent_llm_trading.Prelude.Dict.{Dict, lookup, insert}
use multi_agent_llm_trading.Types.{
  AgentId, AssetClass, OrderSide, order_side_eq, Order, Fill, percent, div_half_even,
}
use multi_agent_llm_trading.Oms.Vocabulary.{
  BrokerOrderState, BrokerOrderStatus, BrokerOrderEvent, BrokerPosition, BrokerAccount,
}

pub data FillMode : Type 0 where
  instant manual reject partial_then_hold : FillMode

-- The exceptions that a call may raise.
pub data BrokerFailure : Type 0 where
  key_error value_error division_error : BrokerFailure
  broker_error broker_rejection broker_unavailable : BrokerFailure

-- `_BrokerOrder`
pub record BrokerOrder : Type 0 where
  pub status : BrokerOrderStatus
  pub fills : List Fill
  pub agent_id : AgentId
  pub limit_price : Option ℕ

pub record FakeBroker : Type 0 where
  pub fill_mode : FillMode
  pub starting_cash : ℤ
  pub cash : ℤ
  pub orders : Dict String BrokerOrder
  pub client_to_broker : Dict ℕ String
  pub positions : Dict String BrokerPosition
  pub prices : Dict String ℕ
  pub callback : Option (List BrokerOrderEvent)
  pub raise_on_next_submit : Option BrokerFailure
  pub raise_on_next_cancel : Option BrokerFailure

pub data Reply (A : Type 0) : Type 0 where
  returns : A → Reply A
  raises : BrokerFailure → Reply A

abbrev pub Call : Type 0 → Type 0
Call A = Reply A × FakeBroker

unfoldable pub new_broker : FillMode → ℤ → FakeBroker
new_broker fill_mode starting_cash = record {
  fill_mode = fill_mode;
  starting_cash = starting_cash;
  cash = starting_cash;
  orders = [];
  client_to_broker = [];
  positions = [];
  prices = [];
  callback = none;
  raise_on_next_submit = none;
  raise_on_next_cancel = none;
}

abbrev pub set_fill_mode : FillMode → FakeBroker → FakeBroker
set_fill_mode mode b = record b { fill_mode = mode }

abbrev pub set_price : String → ℕ → FakeBroker → FakeBroker
set_price symbol price b = record b { prices = insert symbol price b.prices }

abbrev pub inject_submit_failure : BrokerFailure → FakeBroker → FakeBroker
inject_submit_failure error b = record b { raise_on_next_submit = some error }

abbrev pub inject_cancel_failure : BrokerFailure → FakeBroker → FakeBroker
inject_cancel_failure error b = record b { raise_on_next_cancel = some error }

abbrev pub register_event_callback : FakeBroker → FakeBroker
register_event_callback b = record b { callback = some [] }

-- `_emit`
abbrev pub emit : BrokerOrderEvent → FakeBroker → FakeBroker
emit event b = record b {
  callback = elim b.callback [ none ↦ none | some given ↦ some (push given event) ];
}

abbrev pub put_order : String → BrokerOrder → FakeBroker → FakeBroker
put_order broker_id rec b = record b { orders = insert broker_id rec b.orders }

-- `_price_for`
abbrev pub price_or : Option ℕ → Option ℕ → ℕ
price_or (some price) fallback = price
price_or none (some fallback) = fallback
price_or none none = percent 10000

abbrev pub price_for : String → Option ℕ → FakeBroker → ℕ
price_for symbol fallback b = price_or (lookup symbol b.prices) fallback

-- `qty if side == BUY else -qty`
abbrev pub signed : OrderSide → ℕ → ℤ
signed side qty = if side == OrderSide.buy then pos qty else sub_ℕ 0 qty

abbrev pub abs_ℤ : ℤ → ℕ
abs_ℤ z = pos_part z + neg_part z

-- `del d[k]`
abbrev pub delete : String → Dict String BrokerPosition → Dict String BrokerPosition
delete k d = keep (λ e. not (e.0 == k)) d

-- A fill that adds to a position averages its price in; another keeps the average.
abbrev pub same_side : ℤ → ℤ → Bool
same_side a b =
    (ltb 0 (pos_part a) && ltb 0 (pos_part b)) || (ltb 0 (neg_part a) && ltb 0 (neg_part b))

abbrev pub new_position : ℤ → ℕ → BrokerPosition → BrokerPosition
new_position signed_qty price p = record p {
  qty = p.qty +ℤ signed_qty;
  avg_entry_price =
      if same_side p.qty signed_qty
      then div_half_even (p.avg_entry_price * abs_ℤ p.qty + price * abs_ℤ signed_qty)
          (abs_ℤ (p.qty +ℤ signed_qty))
      else p.avg_entry_price;
  current_price = price;
}

abbrev pub move_position :
    String → ℤ → ℕ → Option BrokerPosition → Dict String BrokerPosition → Dict String BrokerPosition
move_position symbol signed_qty price none d =
    if eqb (abs_ℤ signed_qty) 0
    then d
    else insert symbol
        (record {
          symbol = symbol;
          qty = signed_qty;
          avg_entry_price = price;
          current_price = price;
          asset_class = AssetClass.equity;
        })
        d
move_position symbol signed_qty price (some p) d =
    if eqb (abs_ℤ (p.qty +ℤ signed_qty)) 0
    then delete symbol d
    else insert symbol (new_position signed_qty price p) d

-- `signed_qty * price`
abbrev pub cost_of : OrderSide → ℕ → ℕ → ℤ
cost_of side qty price = signed side (qty * price)

-- `_apply_fill_to_account`
unfoldable pub apply_fill_to_account : String → OrderSide → ℕ → ℕ → FakeBroker → FakeBroker
apply_fill_to_account symbol side qty price b = record b {
  cash = b.cash -ℤ cost_of side qty price;
  positions = move_position symbol (signed side qty) price (lookup symbol b.positions) b.positions;
}

-- The average price after a fill; `none` is the division by zero.
abbrev pub new_average : Option ℕ → ℕ → ℕ → ℕ → Option ℕ
new_average none filled qty price = some price
new_average (some avg) filled qty price =
    if eqb (filled + qty) 0
    then none
    else some (div_half_even (avg * filled + price * qty) (filled + qty))

abbrev pub fill_state : BrokerOrderStatus → ℕ → BrokerOrderState
fill_state status qty =
    if leb status.qty (status.filled_qty + qty)
    then BrokerOrderState.filled
    else BrokerOrderState.partially_filled

abbrev pub fill_of : ℕ → ℕ → ℕ → ℕ → BrokerOrder → Fill
fill_of fill_id qty price now rec = record {
  id = fill_id;
  order_id = rec.status.client_order_id;
  agent_id = rec.agent_id;
  symbol = rec.status.symbol;
  side = rec.status.side;
  qty = qty;
  price = price;
  timestamp = now;
  commission = 0;
  is_partial = not (leb rec.status.qty (rec.status.filled_qty + qty));
}

abbrev pub filled_order : ℕ → ℕ → ℕ → ℕ → ℕ → BrokerOrder → BrokerOrder
filled_order avg fill_id qty price now rec = record rec {
  status = record rec.status {
    filled_qty = rec.status.filled_qty + qty;
    avg_fill_price = some avg;
    state = fill_state rec.status qty;
    updated_at = now;
  };
  fills = push rec.fills (fill_of fill_id qty price now rec);
}

abbrev pub event_of :
    BrokerOrderStatus → BrokerOrderState → Option Fill → Option String → ℕ → BrokerOrderEvent
event_of status new_state fill reason now = record {
  broker_order_id = status.broker_order_id;
  client_order_id = status.client_order_id;
  new_state = new_state;
  fill = fill;
  rejection_reason = reason;
  timestamp = some now;
}

-- `_record_fill`, on the record that stands under `broker_id`.
unfoldable pub record_fill : String → ℕ → ℕ → ℕ → ℕ → BrokerOrder → FakeBroker → Call (Unit {0})
unfolding apply_fill_to_account
record_fill broker_id fill_id qty price now rec b =
    elim (new_average rec.status.avg_fill_price rec.status.filled_qty qty price) [
      | none ↦ (raises division_error, b)
      | some avg ↦
          let rec' = filled_order avg fill_id qty price now rec in
          let fill = fill_of fill_id qty price now rec in
          (
            returns tt,
            emit (event_of rec.status (fill_state rec.status qty) (some fill) none now) (
                apply_fill_to_account rec.status.symbol rec.status.side qty price
                  (put_order broker_id rec' b)),
          )
    ]
