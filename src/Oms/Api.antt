-- ===== src/Oms/Api.antt =====
-- The calls of the OMS: submission, cancellation, and the two ghost orders of the reconciler.
use multi_agent_llm_trading.Prelude.{
  ℕ, String, Bool, true, false, Option, none, some, List, [], ◌∷◌, string_eq, nat_eq, ◌==◌,
  if◌then◌else◌,
}
use multi_agent_llm_trading.Prelude.Dict.{lookup, insert, contains}
use multi_agent_llm_trading.Types.{
  AgentId, OrderSide, OrderType, OrderClass, TimeInForce, OrderState, order_state_eq, OrderEvent,
  order_event_eq, submit, accept, cancel, pending, submitted, accepted, Order, Fill,
}
use multi_agent_llm_trading.Fsm.{trigger}
use multi_agent_llm_trading.Fsm.OrderFsm.{order_machine, is_terminal}
use multi_agent_llm_trading.Oms.Vocabulary.{
  BrokerOrderEvent, order_submit_intent, order_accepted, order_cancelled, order_cancel_requested,
  order_placed,
}
use multi_agent_llm_trading.Oms.State.{
  Entry, Oms, Outcome, ok, raised, value_error, broker_unavailable, broker_error, append_log,
  publish, put_entry, with_entry,
}
use multi_agent_llm_trading.Oms.Serialize.{serialize_order}
use multi_agent_llm_trading.Oms.Handlers.{
  done, settle, record_accepted, handle_fill, handle_rejection, on_broker_event, accepted_entry,
}

abbrev pub and_then : {A B : Type 0} → Outcome A → (A → Oms → Outcome B) → Outcome B
and_then (ok a, o) f = f a o
and_then (raised e, o) f = (raised e, o)

-- How a call of the broker's `submit_order` ends.
pub data SubmitReply : Type 0 where
  takes : (broker_order_id : String) → SubmitReply
  rejects : (reason : String) → SubmitReply
  unavailable : SubmitReply

-- How a call of the broker's `cancel_order` ends.
pub data CancelReply : Type 0 where
  cancels fails : CancelReply

pub record SubmitResult : Type 0 where
  pub order : Order
  pub broker_order_id : Option String
  pub was_accepted : Bool
  pub rejection_reason : Option String

-- The callbacks that the broker makes during a call, one after the other.
unfoldable pub deliver : ℕ → List BrokerOrderEvent → Oms → Outcome (Unit {0})
deliver now [] o = done o
deliver now (event ∷ events) o =
    and_then (on_broker_event now event o) (λ _ o'. deliver now events o')

abbrev pub result_of : ℕ → Option String → Bool → Option String → Oms → Outcome SubmitResult
result_of order_id bid was_accepted reason o =
    with_entry order_id
      (λ e. (
        ok (record {
          order = e.order;
          broker_order_id = bid;
          was_accepted = was_accepted;
          rejection_reason = reason;
        }),
        o,
      ))
      o

-- What `submit_order` does with the broker's reply; `later` is the clock at that time.
abbrev pub conclude : ℕ → ℕ → SubmitReply → Oms → Outcome SubmitResult
conclude order_id later (takes bid) o =
    and_then
      (if contains bid o.broker_id_to_order then done o else record_accepted order_id bid later o)
      (λ _ o'. result_of order_id (some bid) true none o')
conclude order_id later (rejects reason) o =
    and_then (handle_rejection order_id reason later o)
      (λ _ o'. result_of order_id none false (some reason) o')
conclude order_id later unavailable o = (raised broker_unavailable, o)

-- The intent is logged and the order marked as submitted before the broker is called.
unfoldable pub log_intent : Order → ℕ → Oms → Oms
log_intent order now o =
    settle order.id submit now (record { order = order; fsm = order_machine pending; fills = [] })
      (append_log order.id (order_submit_intent (serialize_order order)) now o)

abbrev pub placed : ℕ → Oms → Oms
placed order_id o = elim (lookup order_id o.entries) [
  | none ↦ o
  | some e ↦ publish (order_placed e.order ∷ []) o
]

unfoldable pub submit_order :
    Order → (now later : ℕ) → List BrokerOrderEvent → SubmitReply → Oms → Outcome SubmitResult
unfolding log_intent deliver
submit_order order now later callbacks reply o =
    let o' = placed order.id (log_intent order now o) in
    if order.state == pending
    then and_then (deliver later callbacks o') (λ _ o''. conclude order.id later reply o'')
    else (raised value_error, o)

-- Cancelling asks the broker, whose callback moves the order; before an acceptance it is local.
abbrev ask_cancel :
    ℕ → ℕ → List BrokerOrderEvent → CancelReply → Entry → Option String → Oms → Outcome (Unit {0})
ask_cancel order_id now callbacks reply e none o = done (
    settle order_id cancel now e
      (append_log order_id (order_cancelled (some "cancel before broker accept")) now o))
ask_cancel order_id now callbacks reply e (some bid) o =
    and_then (deliver now callbacks (append_log order_id (order_cancel_requested bid) now o))
      (λ _ o'. elim reply [ cancels ↦ done o' | fails ↦ (raised broker_error, o') ])

unfoldable pub cancel_order : ℕ → ℕ → List BrokerOrderEvent → CancelReply → Oms → Outcome (Unit {0})
unfolding deliver
cancel_order order_id now callbacks reply o =
    with_entry order_id
      (λ e.
        if is_terminal e.order.state
        then done o
        else ask_cancel order_id now callbacks reply e e.order.broker_order_id o)
      o

-- The ids that a ghost order draws, and its broker id.
pub record GhostIds : Type 0 where
  pub order_id : ℕ
  pub intent_id : ℕ
  pub fill_id : ℕ
  pub broker_id : String

abbrev pub ghost_order : GhostIds → OrderSide → String → ℕ → AgentId → ℕ → Order
ghost_order ids side symbol qty agent_id ts = record {
  id = ids.order_id;
  intent_id = ids.intent_id;
  agent_id = agent_id;
  symbol = symbol;
  side = side;
  qty = qty;
  order_type = OrderType.market;
  order_class = OrderClass.simple;
  time_in_force = TimeInForce.gtc;
  state = pending;
  created_at = ts;
  limit_price = none;
  stop_price = none;
  trail_percent = none;
  broker_order_id = none;
  legs = [];
  submitted_at = none;
  filled_at = none;
  filled_qty = 0;
  filled_avg_price = none;
  rejection_reason = none;
  is_letf = false;
  letf_entry_date = none;
}

abbrev pub ghost_fill : GhostIds → OrderSide → String → ℕ → ℕ → AgentId → ℕ → Fill
ghost_fill ids side symbol qty price agent_id ts = record {
  id = ids.fill_id;
  order_id = ids.order_id;
  agent_id = agent_id;
  symbol = symbol;
  side = side;
  qty = qty;
  price = price;
  timestamp = ts;
  commission = 0;
  is_partial = false;
}

-- `fsm.trigger(event)` with the order's state set by hand, and nothing published.
abbrev pub force_state : OrderEvent → OrderState → Entry → Entry
force_state event st e = record e {
  fsm = (trigger e.fsm event tt).1;
  order = record e.order { state = st };
}

-- A ghost order, submitted and accepted.
abbrev pub ghost_entry : GhostIds → OrderSide → String → ℕ → AgentId → ℕ → Entry
ghost_entry ids side symbol qty agent_id ts =
    let order = ghost_order ids side symbol qty agent_id ts in
    let fresh : Entry = record { order = order; fsm = order_machine pending; fills = [] } in
    let sent = force_state submit submitted fresh in
    force_state accept accepted (accepted_entry ids.broker_id ts sent)

-- The OMS with the ghost order in it, before its fill.
abbrev pub with_ghost : GhostIds → OrderSide → String → ℕ → AgentId → ℕ → Oms → Oms
with_ghost ids side symbol qty agent_id ts o =
    let order = ghost_order ids side symbol qty agent_id ts in
    let logged =
      append_log ids.order_id (order_accepted ids.broker_id) ts
        (append_log ids.order_id (order_submit_intent (serialize_order order)) ts o) in
    record (put_entry ids.order_id (ghost_entry ids side symbol qty agent_id ts) logged) {
      broker_id_to_order = insert ids.broker_id ids.order_id o.broker_id_to_order;
    }

-- The common body of the two: log, submit and accept a ghost order, and fill it.
unfoldable pub inject_ghost :
    GhostIds → OrderSide → String → ℕ → ℕ → AgentId → ℕ → Oms → Outcome (Unit {0})
inject_ghost ids side symbol qty price agent_id ts o =
    handle_fill ids.order_id (ghost_fill ids side symbol qty price agent_id ts) ts
      (with_ghost ids side symbol qty agent_id ts o)

abbrev pub adopt_orphan_position :
    GhostIds → String → ℕ → ℕ → AgentId → ℕ → Oms → Outcome (Unit {0})
adopt_orphan_position ids = inject_ghost ids OrderSide.buy

abbrev pub book_fee_offset : GhostIds → String → ℕ → ℕ → AgentId → ℕ → Oms → Outcome (Unit {0})
book_fee_offset ids = inject_ghost ids OrderSide.sell
