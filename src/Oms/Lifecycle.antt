-- ===== src/Oms/Lifecycle.antt =====
-- What a broker event can still do to an order that is over.
use multi_agent_llm_trading.Oms.Api.{}
use multi_agent_llm_trading.Prelude.{
  ℕ, ◌≡◌, refl, inl, inr, true, none, some, String, nat_eq, string_eq, arith, Bool-cases,
  Option-cases,
}
use multi_agent_llm_trading.Prelude.Dict.{lookup, insert, lookup-insert_self}
use multi_agent_llm_trading.Types.{OrderState, OrderEvent, order_state_eq, accept, Fill}
use multi_agent_llm_trading.Fsm.OrderFsm.{order_next, is_terminal}
use multi_agent_llm_trading.Oms.Vocabulary.{
  BrokerOrderState, BrokerOrderEvent, order_accepted, fill_received,
}
use multi_agent_llm_trading.Oms.State.{Entry, Oms, append_log, put_entry}
use multi_agent_llm_trading.Oms.Handlers.{
  settle, record_accepted, handle_fill, filled_entry, fill_event, stamp_fill, same_id,
  accepted_entry, dispatch, on_broker_event, is_mapped, time_or, reason_or, with_fill,
}
use multi_agent_llm_trading.Oms.Agreement.{InStep}
use multi_agent_llm_trading.Oms.Agreement.Calls.{
  record_accepted_new, record_accepted_again, handlers_over, handle_fill_done,
}
use multi_agent_llm_trading.Oms.Divergence.{
  transition_entry_stuck, filled_entry-InStep, filled_entry_state,
}

over_arc :
    (st st' : OrderState) (ev : OrderEvent)
    → st ≡ st'
    → is_terminal st ≡ true
    → order_next st' ev ≡ none
unfolding order_next
over_arc st st' ev h over = ground arith

-- An order keeps its state from one OMS to the next.
abbrev pub Keeps : ℕ → OrderState → Oms → Type 0
Keeps id st o = (e : Entry) × (lookup id o.entries ≡ some e) × (e.order.state ≡ st)

settle-Keeps :
    (id ts : ℕ) (ev : OrderEvent) (e : Entry) (o : Oms) (st : OrderState)
    → e.order.state ≡ st
    → InStep e
    → is_terminal e.order.state ≡ true
    → Keeps id st (settle id ev ts e o)
settle-Keeps id ts ev e o st same step over =
    let arc = over_arc e.order.state e.fsm.state ev step.same_state over in
    (e, rw (transition_entry_stuck id ts ev e step arc) (lookup-insert_self id e o.entries), same)

module _ (id : ℕ) (e : Entry) (o : Oms) (known : lookup id o.entries ≡ some e) (step : InStep e)
    (over : is_terminal e.order.state ≡ true) where
  record_accepted-Keeps :
      (bid : String) (ts : ℕ) → Keeps id e.order.state (record_accepted id bid ts o).1
  record_accepted-Keeps bid ts = elim (Bool-cases (same_id e.order.broker_order_id bid)) [
    | inl again ↦ rw (record_accepted_again id e o known bid ts again) (e, known, refl)
    | inr new ↦ rw (record_accepted_new id e o known bid ts new) (
        settle-Keeps id ts accept (accepted_entry bid ts e)
          (record (append_log id (order_accepted bid) ts o) {
            broker_id_to_order = insert bid id o.broker_id_to_order;
          })
          e.order.state refl
          (record { same_state = step.same_state; order_table = step.order_table }) over)
  ]

  handle_fill_zero :
      (fill : Fill) (ts : ℕ)
      → filled_entry ts (stamp_fill e.order fill) e ≡ none
      → (handle_fill id fill ts o).1
        ≡ put_entry id
            (with_fill (stamp_fill e.order fill) e)
            (append_log id (fill_received (stamp_fill e.order fill)) ts o)
  unfolding handle_fill
  handle_fill_zero fill ts zero = ground arith

  handle_fill-Keeps : (fill : Fill) (ts : ℕ) → Keeps id e.order.state (handle_fill id fill ts o).1
  handle_fill-Keeps fill ts =
      let stamped = stamp_fill e.order fill in
      elim (Option-cases (filled_entry ts stamped e)) [
        | inl zero ↦
            rw (handle_fill_zero fill ts zero)
              (with_fill stamped e, lookup-insert_self id (with_fill stamped e) o.entries, refl)
        | inr (e', found) ↦
            let same = filled_entry_state ts stamped e e' found in
            rw (handle_fill_done id e o known fill ts e' found) (
              settle-Keeps id ts (fill_event stamped e) e'
                (append_log id (fill_received stamped) ts o) e.order.state same
                (filled_entry-InStep ts stamped e e' found step) (rw same over))
      ]

  dispatch-Keeps :
      (st : BrokerOrderState) (event : BrokerOrderEvent) (ts : ℕ)
      → event.client_order_id ≡ id
      → Keeps id e.order.state (dispatch st event ts o).1
  dispatch-Keeps BrokerOrderState.accepted event ts same =
      elim (Bool-cases (is_mapped event.client_order_id o.broker_id_to_order)) [
        | inl mapped ↦ rw mapped (e, known, refl)
        | inr free ↦ rw free (rw same (record_accepted-Keeps event.broker_order_id ts))
      ]
  dispatch-Keeps BrokerOrderState.partially_filled event ts same = elim (Option-cases event.fill) [
    | inl missing ↦ rw missing (e, known, refl)
    | inr (fill, there) ↦ rw there (rw same (handle_fill-Keeps fill ts))
  ]
  dispatch-Keeps BrokerOrderState.filled event ts same = elim (Option-cases event.fill) [
    | inl missing ↦ rw missing (e, known, refl)
    | inr (fill, there) ↦ rw there (rw same (handle_fill-Keeps fill ts))
  ]
  dispatch-Keeps BrokerOrderState.canceled event ts same =
      rw (same, (handlers_over id e o known ts "" over).0) (e, known, refl)
  dispatch-Keeps BrokerOrderState.rejected event ts same =
      let reason = reason_or event.rejection_reason "broker rejected" in
      rw (same, (handlers_over id e o known ts reason over).1) (e, known, refl)
  dispatch-Keeps BrokerOrderState.expired event ts same =
      rw (same, (handlers_over id e o known ts "" over).2) (e, known, refl)
  dispatch-Keeps BrokerOrderState.new event ts same = (e, known, refl)
  dispatch-Keeps BrokerOrderState.unknown event ts same = (e, known, refl)

on_broker_event-known :
    (now : ℕ) (event : BrokerOrderEvent) (e : Entry) (o : Oms)
    → lookup event.client_order_id o.entries ≡ some e
    → on_broker_event now event o ≡ dispatch event.new_state event (time_or event.timestamp now) o
unfolding on_broker_event
on_broker_event-known now event e o known = ground arith

-- Whatever the broker reports on an order that is over and in step with its machine, even a late
-- acceptance or fill, its state stays what it was. (A replay of a log that parts from the memory may
-- leave an order out of step; of such an order nothing is said.)
pub on_broker_event-terminal :
    (now : ℕ) (event : BrokerOrderEvent) (e : Entry) (o : Oms)
    → lookup event.client_order_id o.entries ≡ some e
    → InStep e
    → is_terminal e.order.state ≡ true
    → Keeps event.client_order_id e.order.state (on_broker_event now event o).1
on_broker_event-terminal now event e o known step over =
    rw (on_broker_event-known now event e o known) (
      dispatch-Keeps event.client_order_id e o known step over event.new_state event
        (time_or event.timestamp now) refl)
