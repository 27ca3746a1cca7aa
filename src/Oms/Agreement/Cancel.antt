-- ===== src/Oms/Agreement/Cancel.antt =====
-- Crash recovery: `cancel_order`, and the rows that it logs.
use multi_agent_llm_trading.Prelude.{
  ℕ, ◌≡◌, ◌≢◌, String, true, false, none, some, [], Bool-cases, Option-cases, inl, inr, nat_eq,
  arith,
}
use multi_agent_llm_trading.Prelude.Dict.{lookup}
use multi_agent_llm_trading.Types.{cancel, pending, cancelled}
use multi_agent_llm_trading.Fsm.OrderFsm.{is_terminal}
use multi_agent_llm_trading.Oms.Vocabulary.{LoggedEvent, order_cancel_requested, order_cancelled}
use multi_agent_llm_trading.Oms.State.{Entry, Oms, append_log}
use multi_agent_llm_trading.Oms.Handlers.{settle}
use multi_agent_llm_trading.Oms.Api.{CancelReply, cancel_order, deliver}
use multi_agent_llm_trading.Oms.Replay.{book_of, apply_logged_event}
use multi_agent_llm_trading.Oms.Agreement.{
  Agrees, InStep, cancel_arc, replay_log-push, settle-Agrees,
}

-- A call for an order that is known, up to the callbacks of the broker.
module _ (id now : ℕ) (reply : CancelReply) (e : Entry) (o : Oms)
    (known : lookup id o.entries ≡ some e) where
  pub cancel_order-over : is_terminal e.order.state ≡ true → (cancel_order id now [] reply o).1 ≡ o
  unfolding cancel_order
  cancel_order-over over = ground arith

  pub cancel_order-asks :
      (bid : String)
      → is_terminal e.order.state ≡ false
      → e.order.broker_order_id ≡ some bid
      → (cancel_order id now [] reply o).1 ≡ append_log id (order_cancel_requested bid) now o
  unfolding cancel_order deliver
  cancel_order-asks bid live there = ground arith

  pub cancel_order-local :
      is_terminal e.order.state ≡ false
      → e.order.broker_order_id ≡ none
      → (cancel_order id now [] reply o).1
        ≡ settle id cancel now e
            (append_log id (order_cancelled (some "cancel before broker accept")) now o)
  unfolding cancel_order
  cancel_order-local live missing = ground arith

  -- A request to cancel is a row that the replay passes over.
  asked-Agrees :
      (bid : String) → Agrees o → Agrees (append_log id (order_cancel_requested bid) now o)
  unfolding apply_logged_event
  asked-Agrees bid agrees =
      let row : LoggedEvent = record {
        ts = now;
        kind = order_cancel_requested bid;
        order_id = id;
      } in
      replay_log-push o.store row (book_of o) agrees

  pub cancel_order-Agrees :
      Agrees o → InStep e → e.order.state ≢ pending → Agrees (cancel_order id now [] reply o).1
  cancel_order-Agrees agrees in_step st = elim (Bool-cases (is_terminal e.order.state)) [
    | inl over ↦ rw (cancel_order-over over) agrees
    | inr live ↦ elim (Option-cases e.order.broker_order_id) [
      | inl missing ↦ rw (cancel_order-local live missing) (
          settle-Agrees id now cancel cancelled e o agrees
            (order_cancelled (some "cancel before broker accept")) o.broker_id_to_order
            (ground arith) in_step.order_table
            (cancel_arc e.order.state e.fsm.state in_step.same_state st live))
      | inr (bid, there) ↦ rw (cancel_order-asks bid live there) (asked-Agrees bid agrees)
    ]
  ]
