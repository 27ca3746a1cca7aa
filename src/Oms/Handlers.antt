-- ===== src/Oms/Handlers.antt =====
-- The handlers of the OMS: acceptance, fill, cancellation, rejection, expiry, and the dispatch of a
-- broker event to them.
use multi_agent_llm_trading.Prelude.{
  ℕ, ◌+◌, String, Bool, true, false, Option, none, some, [], ◌∷◌, push, nat_eq, string_eq, ◌==◌,
  if◌then◌else◌,
}
use multi_agent_llm_trading.Prelude.Dict.{Dict, lookup, insert}
use multi_agent_llm_trading.Types.{
  OrderEvent, accept, partial_fill, full_fill, cancel, reject, expire, Order, Fill,
}
use multi_agent_llm_trading.Fsm.OrderFsm.{is_terminal}
use multi_agent_llm_trading.Oms.Vocabulary.{
  BrokerOrderState, BrokerOrderEvent, order_accepted, order_rejected, fill_received,
  order_cancelled, order_expired, fill_published,
}
use multi_agent_llm_trading.Oms.State.{
  Entry, Oms, Outcome, ok, raised, division_error, append_log, publish, put_entry, with_entry,
  is_fully_filled, new_average, transition_entry,
}

abbrev pub done : Oms → Outcome (Unit {0})
done o = (ok tt, o)

-- `_transition`, on an entry that is about to be written back.
abbrev pub settle : ℕ → OrderEvent → ℕ → Entry → Oms → Oms
settle order_id event ts e o =
    let (e', events) = transition_entry order_id event ts e in
    publish events (put_entry order_id e' o)

abbrev pub same_id : Option String → String → Bool
same_id none bid = false
same_id (some b) bid = b == bid

-- The order once the broker has taken it.
abbrev pub accepted_entry : String → ℕ → Entry → Entry
accepted_entry broker_order_id ts e = record e {
  order = record e.order { broker_order_id = some broker_order_id; submitted_at = some ts };
}

-- `_record_accepted`; a second acceptance under the same id changes nothing.
unfoldable pub record_accepted : ℕ → String → ℕ → Oms → Outcome (Unit {0})
record_accepted order_id broker_order_id ts o =
    with_entry order_id
      (λ e.
        let o' = append_log order_id (order_accepted broker_order_id) ts o in
        let o'' = record o' {
          broker_id_to_order = insert broker_order_id order_id o.broker_id_to_order;
        } in
        if same_id e.order.broker_order_id broker_order_id
        then done o
        else done (settle order_id accept ts (accepted_entry broker_order_id ts e) o''))
      o

-- A fill is stamped with the order's agent and symbol.
abbrev pub stamp_fill : Order → Fill → Fill
stamp_fill order fill = record fill { agent_id = order.agent_id; symbol = order.symbol }

abbrev pub with_fill : Fill → Entry → Entry
with_fill fill e = record e { fills = push e.fills fill }

-- The order's new totals; `none` where the average divides by zero.
unfoldable pub filled_entry : ℕ → Fill → Entry → Option Entry
filled_entry ts fill e = elim (new_average e.order.filled_avg_price e.order.filled_qty fill) [
  | none ↦ none
  | some avg ↦ some (record (with_fill fill e) {
    order = record e.order {
      filled_qty = e.order.filled_qty + fill.qty;
      filled_avg_price = some avg;
      filled_at =
          if is_fully_filled e.order.qty (e.order.filled_qty + fill.qty)
          then some ts
          else e.order.filled_at;
    };
  })
]

-- FULL_FILL or PARTIAL_FILL.
abbrev pub fill_event : Fill → Entry → OrderEvent
fill_event fill e =
    if is_fully_filled e.order.qty (e.order.filled_qty + fill.qty) then full_fill else partial_fill

unfoldable pub handle_fill : ℕ → Fill → ℕ → Oms → Outcome (Unit {0})
handle_fill order_id broker_fill ts o =
    with_entry order_id
      (λ e.
        let fill = stamp_fill e.order broker_fill in
        let o' = append_log order_id (fill_received fill) ts o in
        elim (filled_entry ts fill e) [
          | none ↦ (raised division_error, put_entry order_id (with_fill fill e) o')
          | some e' ↦
              done
                (publish (fill_published fill ∷ []) (settle order_id (fill_event fill e) ts e' o'))
        ])
      o

unfoldable pub force_close_filled : ℕ → ℕ → Oms → Outcome (Unit {0})
force_close_filled order_id ts o = elim (lookup order_id o.entries) [
  | none ↦ done o
  | some e ↦
      let closed = record e {
        order = record e.order { qty = e.order.filled_qty; filled_at = some ts };
      } in
      if is_terminal e.order.state then done o else done (settle order_id full_fill ts closed o)
]

unfoldable pub handle_cancellation : ℕ → ℕ → Oms → Outcome (Unit {0})
handle_cancellation order_id ts o =
    with_entry order_id
      (λ e.
        if is_terminal e.order.state
        then done o
        else done (settle order_id cancel ts e (append_log order_id (order_cancelled none) ts o)))
      o

abbrev pub rejected_entry : String → Entry → Entry
rejected_entry reason e = record e { order = record e.order { rejection_reason = some reason } }

unfoldable pub handle_rejection : ℕ → String → ℕ → Oms → Outcome (Unit {0})
handle_rejection order_id reason ts o =
    with_entry order_id
      (λ e.
        if is_terminal e.order.state
        then done o
        else done (
            settle order_id reject ts (rejected_entry reason e)
              (append_log order_id (order_rejected reason) ts o)))
      o

unfoldable pub handle_expiry : ℕ → ℕ → Oms → Outcome (Unit {0})
handle_expiry order_id ts o =
    with_entry order_id
      (λ e.
        if is_terminal e.order.state
        then done o
        else done (settle order_id expire ts e (append_log order_id order_expired ts o)))
      o

-- `order_id in self._broker_id_to_order_inverse()`
unfoldable pub is_mapped : ℕ → Dict String ℕ → Bool
is_mapped order_id [] = false
is_mapped order_id ((_, oid) ∷ d) = if oid == order_id then true else is_mapped order_id d

-- `text or default`: an absent or empty text gives the default.
abbrev pub reason_or : Option String → String → String
reason_or none default = default
reason_or (some reason) default = if reason == "" then default else reason

abbrev pub time_or : Option ℕ → ℕ → ℕ
time_or none now = now
time_or (some ts) now = ts

-- The `match` of `_on_broker_event`. A fill state with no fill is left to the reconciler.
abbrev pub dispatch : BrokerOrderState → BrokerOrderEvent → ℕ → Oms → Outcome (Unit {0})
dispatch BrokerOrderState.accepted event ts o =
    if is_mapped event.client_order_id o.broker_id_to_order
    then done o
    else record_accepted event.client_order_id event.broker_order_id ts o
dispatch BrokerOrderState.partially_filled event ts o = elim event.fill [
  | none ↦ done o
  | some fill ↦ handle_fill event.client_order_id fill ts o
]
dispatch BrokerOrderState.filled event ts o = elim event.fill [
  | none ↦ done o
  | some fill ↦ handle_fill event.client_order_id fill ts o
]
dispatch BrokerOrderState.canceled event ts o = handle_cancellation event.client_order_id ts o
dispatch BrokerOrderState.rejected event ts o =
    handle_rejection event.client_order_id (reason_or event.rejection_reason "broker rejected") ts o
dispatch BrokerOrderState.expired event ts o = handle_expiry event.client_order_id ts o
dispatch BrokerOrderState.new event ts o = done o
dispatch BrokerOrderState.unknown event ts o = done o

-- An event for an order that is not known is ignored.
unfoldable pub on_broker_event : ℕ → BrokerOrderEvent → Oms → Outcome (Unit {0})
on_broker_event now event o = elim (lookup event.client_order_id o.entries) [
  | none ↦ done o
  | some _ ↦ dispatch event.new_state event (time_or event.timestamp now) o
]
