-- ===== src/Oms/Delivery.antt =====
-- What the OMS does with the acceptance and with a fill of an order that it knows.
use multi_agent_llm_trading.Prelude.{ℕ, ◌≡◌, false, none, some, [], ◌∷◌, string_eq, nat_eq, arith}
use multi_agent_llm_trading.Prelude.Dict.{lookup, insert, lookup-insert_self}
use multi_agent_llm_trading.Types.{
  OrderState, OrderEvent, order_state_eq, order_event_eq, accept, Fill,
}
use multi_agent_llm_trading.Fsm.OrderFsm.{order_next}
use multi_agent_llm_trading.Oms.Vocabulary.{
  BrokerOrderState, BrokerOrderEvent, order_accepted, fill_received, fill_published,
}
use multi_agent_llm_trading.Oms.State.{Entry, Oms, ok, append_log, publish}
use multi_agent_llm_trading.Oms.Handlers.{
  settle, record_accepted, handle_fill, filled_entry, stamp_fill, fill_event, accepted_entry,
  on_broker_event, is_mapped,
}
use multi_agent_llm_trading.Oms.Agreement.{InStep, transition-force_state}
use multi_agent_llm_trading.Oms.Api.{force_state}

-- After a transition that the machine has, the entry is the forced one, and in step.
pub settle-forced :
    (id ts : ℕ) (ev : OrderEvent) (st : OrderState) (e : Entry) (o : Oms)
    → InStep e
    → order_next e.order.state ev ≡ some st
    → (lookup id (settle id ev ts e o).entries ≡ some (force_state ev st e))
      × InStep (force_state ev st e)
settle-forced id ts ev st e o step arc =
    let (moved, still) =
      transition-force_state id ts ev st e step.order_table (rw (← step.same_state) arc) in
    (rw moved (lookup-insert_self id (force_state ev st e) o.entries), rw (← moved) still)

module _ (id now : ℕ) (e : Entry) (o : Oms) (known : lookup id o.entries ≡ some e) where
  pub accept_event :
      (event : BrokerOrderEvent) (ts : ℕ)
      → event.client_order_id ≡ id
      → event.new_state ≡ BrokerOrderState.accepted
      → event.timestamp ≡ some ts
      → e.order.broker_order_id ≡ none
      → is_mapped id o.broker_id_to_order ≡ false
      → on_broker_event now event o ≡ (
        ok tt,
        settle id accept ts
            (accepted_entry event.broker_order_id ts e)
            (record (append_log id (order_accepted event.broker_order_id) ts o) {
              broker_id_to_order = insert event.broker_order_id id o.broker_id_to_order;
            }),
      )
  unfolding on_broker_event record_accepted
  accept_event event ts client st at no_id unmapped = ground arith

  pub fill_event_lem :
      (event : BrokerOrderEvent) (fill : Fill) (ts : ℕ) (e' : Entry)
      → event.client_order_id ≡ id
      → event.new_state ≡ BrokerOrderState.filled
      → event.fill ≡ some fill
      → event.timestamp ≡ some ts
      → filled_entry ts (stamp_fill e.order fill) e ≡ some e'
      → on_broker_event now event o ≡ (
        ok tt,
        publish (fill_published (stamp_fill e.order fill) ∷ []) (
            settle id
              (fill_event (stamp_fill e.order fill) e)
              ts
              e'
              (append_log id (fill_received (stamp_fill e.order fill)) ts o)),
      )
  unfolding on_broker_event handle_fill
  fill_event_lem event fill ts e' client st some_fill at totals = ground arith
