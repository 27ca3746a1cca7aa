-- ===== src/Oms/History.antt =====
-- Histories of an OMS in which the broker keeps the order of events, and what survives a crash.
use multi_agent_llm_trading.Prelude.{
  ℕ, ◌≡◌, ◌≢◌, refl, ◌⊎◌, sym, ◌∙◌, String, true, false, none, some, [], nat_eq, string_eq,
  Bool-cases, inl, inr, ◌<◌, ◌==◌, beq_refl, Option-cases, eq_of_beq,
}
use multi_agent_llm_trading.Prelude.Dict.{insert, lookup, lookup-insert_self, lookup-insert_ne}
use multi_agent_llm_trading.Types.{
  OrderState, OrderEvent, order_state_eq, order_event_eq, submit, accept, cancel, reject, expire,
  pending, submitted, accepted, partial, cancelled, rejected, expired, Order, Fill,
}
use multi_agent_llm_trading.Fsm.OrderFsm.{order_machine, order_next, order_transitions, is_terminal}
use multi_agent_llm_trading.Oms.Vocabulary.{
  order_submit_intent, order_accepted, fill_received, order_cancelled, order_rejected,
  order_expired,
}
use multi_agent_llm_trading.Oms.State.{Entry, Oms, append_log, transition_entry}
use multi_agent_llm_trading.Oms.Serialize.{IsPlain, serialize_order}
use multi_agent_llm_trading.Oms.Handlers.{
  settle, record_accepted, handle_fill, handle_cancellation, handle_rejection, handle_expiry,
  accepted_entry, rejected_entry, filled_entry, fill_event, same_id, stamp_fill,
}
use multi_agent_llm_trading.Oms.Api.{CancelReply, cancel_order, log_intent}
use multi_agent_llm_trading.Oms.Replay.{state_after_fill}
use multi_agent_llm_trading.Oms.Agreement.{
  Agrees, InStep, transition-force_state, cancel_arc, reject_arc, expire_arc,
}
use multi_agent_llm_trading.Oms.Agreement.Cancel.{
  cancel_order-over, cancel_order-asks, cancel_order-local, cancel_order-Agrees,
}
use multi_agent_llm_trading.Oms.Agreement.Calls.{
  record_accepted_new, record_accepted_again, handle_cancellation_live, handle_rejection_live,
  handle_expiry_live, handlers_over, handle_fill_done, record_accepted-Agrees,
  handle_cancellation-Agrees, handle_rejection-Agrees, handle_expiry-Agrees, handle_fill-Agrees,
  log_intent-Agrees, filled_entry-none, filled_entry-some, same_fill_event,
}

-- Every entry is in step with its machine.
abbrev pub AllInStep : Oms → Type 0
AllInStep o = (id : ℕ) (e : Entry) → lookup id o.entries ≡ some e → InStep e

some_inj : {A : Type 0} {a b : A} → some a ≡ some b → a ≡ b
some_inj h = cc

true_ne_false : true ≢ false
true_ne_false h = cc

settle-AllInStep :
    (id ts : ℕ) (ev : OrderEvent) (st : OrderState) (e : Entry) (o : Oms)
    → e.fsm.table ≡ order_transitions
    → order_next e.fsm.state ev ≡ some st
    → AllInStep o
    → AllInStep (settle id ev ts e o)
settle-AllInStep id ts ev st e o table arc h id' e' known = elim (Bool-cases (id' == id)) [
  | inl same ↦
      let moved = (transition_entry id ev ts e).0 in
      let here = lookup-insert_self id moved o.entries in
      let eq : id' ≡ id = eq_of_beq id' id same in
      let found : some moved ≡ some e' = sym here ∙ rw eq at known in
      rw (← some_inj found) ((transition-force_state id ts ev st e table arc).1)
  | inr other ↦
      let apart : id' ≢ id = λ eq. true_ne_false (rw (eq, beq_refl id) at other) in
      h id' e'
        (rw (lookup-insert_ne id' id (transition_entry id ev ts e).0 o.entries apart) at known)
]

-- The steps that follow the broker's order of events: an acceptance comes before the fills and the
-- expiry of its order, and a rejection before its fills. A fill has a positive quantity.
pub data Step : Oms → Oms → Type 0 where
  intend :
      (order : Order) (now : ℕ) (o : Oms)
      → order.state ≡ pending
      → IsPlain order
      → lookup order.id o.entries ≡ none
      → Step o (log_intent order now o)
  accepts :
      (id : ℕ) (bid : String) (ts : ℕ) (e : Entry) (o : Oms)
      → lookup id o.entries ≡ some e
      → e.order.state ≡ submitted
      → Step o (record_accepted id bid ts o).1
  fills :
      (id : ℕ) (fill : Fill) (ts : ℕ) (e : Entry) (o : Oms)
      → lookup id o.entries ≡ some e
      → (e.order.state ≡ accepted) ⊎ (e.order.state ≡ partial)
      → 0 < fill.qty
      → Step o (handle_fill id fill ts o).1
  cancels :
      (id ts : ℕ) (e : Entry) (o : Oms)
      → lookup id o.entries ≡ some e
      → e.order.state ≢ pending
      → Step o (handle_cancellation id ts o).1
  rejects :
      (id : ℕ) (reason : String) (ts : ℕ) (e : Entry) (o : Oms)
      → lookup id o.entries ≡ some e
      → e.order.state ≢ pending
      → e.order.state ≢ partial
      → Step o (handle_rejection id reason ts o).1
  expires :
      (id ts : ℕ) (e : Entry) (o : Oms)
      → lookup id o.entries ≡ some e
      → e.order.state ≢ pending
      → e.order.state ≢ submitted
      → Step o (handle_expiry id ts o).1
  asks :
      (id now : ℕ) (reply : CancelReply) (e : Entry) (o : Oms)
      → lookup id o.entries ≡ some e
      → e.order.state ≢ pending
      → Step o (cancel_order id now [] reply o).1

pub data Reach (start : Oms) : Oms → Type 0 where
  here : Reach start start
  next : {o o' : Oms} → Reach start o → Step o o' → Reach start o'

Step-Agrees : {o o' : Oms} → Step o o' → Agrees o → AllInStep o → Agrees o'
Step-Agrees (intend order now o st plain fresh) h k = log_intent-Agrees order now o st plain fresh h
Step-Agrees (accepts id bid ts e o known st) h k =
    record_accepted-Agrees id e o h known (k id e known) bid ts st
Step-Agrees (fills id fill ts e o known st positive) h k =
    handle_fill-Agrees id e o h known (k id e known) fill ts st positive
Step-Agrees (cancels id ts e o known st) h k =
    handle_cancellation-Agrees id e o h known (k id e known) ts st
Step-Agrees (rejects id reason ts e o known st st') h k =
    handle_rejection-Agrees id e o h known (k id e known) reason ts st st'
Step-Agrees (expires id ts e o known st st') h k =
    handle_expiry-Agrees id e o h known (k id e known) ts st st'
Step-Agrees (asks id now reply e o known st) h k =
    cancel_order-Agrees id now reply e o known h (k id e known) st

Step-AllInStep : {o o' : Oms} → Step o o' → AllInStep o → AllInStep o'
unfolding log_intent order_next
Step-AllInStep (intend order now o st plain fresh) k =
    settle-AllInStep order.id now submit submitted
      (record { order = order; fsm = order_machine pending; fills = [] })
      (append_log order.id (order_submit_intent (serialize_order order)) now o) refl refl k
Step-AllInStep (accepts id bid ts e o known st) k =
    let step = k id e known in
    elim (Bool-cases (same_id e.order.broker_order_id bid)) [
      | inl again ↦ rw (record_accepted_again id e o known bid ts again) k
      | inr new ↦ rw (record_accepted_new id e o known bid ts new) (
          settle-AllInStep id ts accept accepted (accepted_entry bid ts e)
            (record (append_log id (order_accepted bid) ts o) {
              broker_id_to_order = insert bid id o.broker_id_to_order;
            })
            step.order_table (rw (← step.same_state, st) refl) k)
    ]
Step-AllInStep (fills id fill ts e o known st positive) k =
    let step = k id e known in
    let stamped = stamp_fill e.order fill in
    elim (Option-cases (filled_entry ts stamped e)) [
      | inl zero ↦ absurd (filled_entry-none ts stamped e positive zero)
      | inr (e', found) ↦
          let same = filled_entry-some ts stamped e e' found in
          rw (handle_fill_done id e o known fill ts e' found) (
            settle-AllInStep id ts (fill_event stamped e) (state_after_fill stamped e) e'
              (append_log id (fill_received stamped) ts o) (rw same step.order_table)
              (rw same (same_fill_event stamped e e.order.state e.fsm.state step.same_state st)) k)
    ]
Step-AllInStep (cancels id ts e o known st) k =
    let step = k id e known in
    elim (Bool-cases (is_terminal e.order.state)) [
      | inl over ↦ rw ((handlers_over id e o known ts "" over).0) k
      | inr live ↦ rw (handle_cancellation_live id e o known ts live) (
          settle-AllInStep id ts cancel cancelled e (append_log id (order_cancelled none) ts o)
            step.order_table (cancel_arc e.order.state e.fsm.state step.same_state st live) k)
    ]
Step-AllInStep (rejects id reason ts e o known st st') k =
    let step = k id e known in
    elim (Bool-cases (is_terminal e.order.state)) [
      | inl over ↦ rw ((handlers_over id e o known ts reason over).1) k
      | inr live ↦ rw (handle_rejection_live id e o known reason ts live) (
          settle-AllInStep id ts reject rejected (rejected_entry reason e)
            (append_log id (order_rejected reason) ts o) step.order_table
            (reject_arc e.order.state e.fsm.state step.same_state st' live) k)
    ]
Step-AllInStep (expires id ts e o known st st') k =
    let step = k id e known in
    elim (Bool-cases (is_terminal e.order.state)) [
      | inl over ↦ rw ((handlers_over id e o known ts "" over).2) k
      | inr live ↦ rw (handle_expiry_live id e o known ts live) (
          settle-AllInStep id ts expire expired e (append_log id order_expired ts o)
            step.order_table (expire_arc e.order.state e.fsm.state step.same_state st st' live) k)
    ]
Step-AllInStep (asks id now reply e o known st) k =
    let step = k id e known in
    elim (Bool-cases (is_terminal e.order.state)) [
      | inl over ↦ rw (cancel_order-over id now reply e o known over) k
      | inr live ↦ elim (Option-cases e.order.broker_order_id) [
        | inl missing ↦ rw (cancel_order-local id now reply e o known live missing) (
            settle-AllInStep id now cancel cancelled e
              (append_log id (order_cancelled (some "cancel before broker accept")) now o)
              step.order_table (cancel_arc e.order.state e.fsm.state step.same_state st live) k)
        | inr (bid, there) ↦ rw (cancel_order-asks id now reply e o known bid live there) k
      ]
    ]

-- From an OMS that its log rebuilds, with every order in step: after any number of submissions of
-- new orders without legs, trailing percentage and LETF entry date, calls of cancel_order (what the
-- broker calls back is a step after them), acceptances, fills, cancellations, rejections and expiries
-- in the broker's order of events, replaying the log gives exactly the orders, machines, fills and
-- broker ids in memory, and every order's state is its machine's. Adopted positions, fee offsets and
-- force_close_filled are no steps of such a history.
pub replay_log_recovers :
    {start o : Oms} → Agrees start → AllInStep start → Reach start o → Agrees o × AllInStep o
replay_log_recovers h k here = (h, k)
replay_log_recovers h k (next r step) =
    let (agrees, in_step) = replay_log_recovers h k r in
    (Step-Agrees step agrees in_step, Step-AllInStep step in_step)
