-- ===== src/Fsm/Examples.antt =====
-- The state machine at concrete orders.
use multi_agent_llm_trading.Prelude.{◌≡◌, refl}
use multi_agent_llm_trading.Types.{order_state_eq, order_event_eq, pending, submit}
use multi_agent_llm_trading.Fsm.{trigger}
use multi_agent_llm_trading.Fsm.Laws.{}
use multi_agent_llm_trading.Fsm.OrderFsm.{
  OrderMachine, order_machine, order_next, step_order, trigger-order_next,
}

abbrev new_order : OrderMachine
new_order = order_machine pending

trigger-order_next_example :
    trigger new_order submit tt ≡ step_order new_order submit (order_next new_order.state submit)
trigger-order_next_example = trigger-order_next new_order submit refl
