-- ===== src/Oms/Agreement/Calls.antt =====
-- Crash recovery: each call keeps the log and the memory in agreement.
use multi_agent_llm_trading.Prelude.{
  ℕ, ◌≡◌, ◌≢◌, refl, ◌⊎◌, String, true, false, none, some, [], ◌∷◌, nat_eq, string_eq, arith,
  Bool-cases, inl, inr, ◌<◌, Option-cases,
}
use multi_agent_llm_trading.Prelude.Dict.{lookup, insert}
use multi_agent_llm_trading.Types.{
  OrderState, order_state_eq, order_event_eq, submit, accept, cancel, reject, expire, pending,
  submitted, accepted, partial, cancelled, rejected, expired, Order, Fill,
}
use multi_agent_llm_trading.Fsm.OrderFsm.{order_machine, order_next, is_terminal}
use multi_agent_llm_trading.Oms.Vocabulary.{
  order_submit_intent, order_accepted, order_rejected, fill_received, order_cancelled,
  order_expired, fill_published,
}
use multi_agent_llm_trading.Oms.State.{Entry, Oms, append_log, publish}
use multi_agent_llm_trading.Oms.Serialize.{IsPlain, deserialize-serialize_order, serialize_order}
use multi_agent_llm_trading.Oms.Handlers.{
  settle, record_accepted, handle_fill, handle_cancellation, handle_rejection, handle_expiry,
  accepted_entry, rejected_entry, filled_entry, fill_event, same_id, stamp_fill,
}
use multi_agent_llm_trading.Oms.Api.{log_intent}
use multi_agent_llm_trading.Oms.Replay.{state_after_fill}
use multi_agent_llm_trading.Oms.Agreement.{
  Agrees, InStep, settle-Agrees, fill_arc, cancel_arc, reject_arc, expire_arc,
}

-- What the handlers do at an order that is known, written with `settle`.
module _ (id : ℕ) (e : Entry) (o : Oms) (known : lookup id o.entries ≡ some e) where
  pub record_accepted_new :
      (bid : String) (ts : ℕ)
      → same_id e.order.broker_order_id bid ≡ false
      → (record_accepted id bid ts o).1
        ≡ settle id accept ts
            (accepted_entry bid ts e)
            (record (append_log id (order_accepted bid) ts o) {
              broker_id_to_order = insert bid id o.broker_id_to_order;
            })
  unfolding record_accepted
  record_accepted_new bid ts new = ground arith

  pub record_accepted_again :
      (bid : String) (ts : ℕ)
      → same_id e.order.broker_order_id bid ≡ true
      → (record_accepted id bid ts o).1 ≡ o
  unfolding record_accepted
  record_accepted_again bid ts again = ground arith

  pub handle_cancellation_live :
      (ts : ℕ)
      → is_terminal e.order.state ≡ false
      → (handle_cancellation id ts o).1
        ≡ settle id cancel ts e (append_log id (order_cancelled none) ts o)
  unfolding handle_cancellation
  handle_cancellation_live ts live = ground arith

  pub handle_rejection_live :
      (reason : String) (ts : ℕ)
      → is_terminal e.order.state ≡ false
      → (handle_rejection id reason ts o).1
        ≡ settle id reject ts (rejected_entry reason e) (append_log id (order_rejected reason) ts o)
  unfolding handle_rejection
  handle_rejection_live reason ts live = ground arith

  pub handle_expiry_live :
      (ts : ℕ)
      → is_terminal e.order.state ≡ false
      → (handle_expiry id ts o).1 ≡ settle id expire ts e (append_log id order_expired ts o)
  unfolding handle_expiry
  handle_expiry_live ts live = ground arith

  -- An order that is over is left alone.
  pub handlers_over :
      (ts : ℕ) (reason : String)
      → is_terminal e.order.state ≡ true
      → ((handle_cancellation id ts o).1 ≡ o)
        × ((handle_rejection id reason ts o).1 ≡ o)
        × ((handle_expiry id ts o).1 ≡ o)
  unfolding handle_cancellation handle_rejection handle_expiry
  handlers_over ts reason over = (ground arith, ground arith, ground arith)

  pub handle_fill_done :
      (fill : Fill) (ts : ℕ) (e' : Entry)
      → filled_entry ts (stamp_fill e.order fill) e ≡ some e'
      → (handle_fill id fill ts o).1
        ≡ publish (fill_published (stamp_fill e.order fill) ∷ []) (
            settle id
              (fill_event (stamp_fill e.order fill) e)
              ts
              e'
              (append_log id (fill_received (stamp_fill e.order fill)) ts o))
  unfolding handle_fill
  handle_fill_done fill ts e' some_e = ground arith

-- The handlers, at an order that is known and whose entry is in step.
module _ (id : ℕ) (e : Entry) (o : Oms) (agrees : Agrees o) (known : lookup id o.entries ≡ some e)
    (in_step : InStep e) where
  pub record_accepted-Agrees :
      (bid : String) (ts : ℕ) → e.order.state ≡ submitted → Agrees (record_accepted id bid ts o).1
  unfolding order_next
  record_accepted-Agrees bid ts st = elim (Bool-cases (same_id e.order.broker_order_id bid)) [
    | inl again ↦ rw (record_accepted_again id e o known bid ts again) agrees
    | inr new ↦
        let arc : order_next e.fsm.state accept ≡ some accepted =
          rw (← in_step.same_state, st) refl in
        rw (record_accepted_new id e o known bid ts new) (
          settle-Agrees id ts accept accepted (accepted_entry bid ts e) o agrees
            (order_accepted bid) (insert bid id o.broker_id_to_order) (ground arith)
            in_step.order_table arc)
  ]

  pub handle_cancellation-Agrees :
      (ts : ℕ) → e.order.state ≢ pending → Agrees (handle_cancellation id ts o).1
  handle_cancellation-Agrees ts st = elim (Bool-cases (is_terminal e.order.state)) [
    | inl over ↦ rw ((handlers_over id e o known ts "" over).0) agrees
    | inr live ↦ rw (handle_cancellation_live id e o known ts live) (
        settle-Agrees id ts cancel cancelled e o agrees (order_cancelled none) o.broker_id_to_order
          (ground arith) in_step.order_table
          (cancel_arc e.order.state e.fsm.state in_step.same_state st live))
  ]

  pub handle_rejection-Agrees :
      (reason : String) (ts : ℕ)
      → e.order.state ≢ pending
      → e.order.state ≢ partial
      → Agrees (handle_rejection id reason ts o).1
  handle_rejection-Agrees reason ts st st' = elim (Bool-cases (is_terminal e.order.state)) [
    | inl over ↦ rw ((handlers_over id e o known ts reason over).1) agrees
    | inr live ↦ rw (handle_rejection_live id e o known reason ts live) (
        settle-Agrees id ts reject rejected (rejected_entry reason e) o agrees
          (order_rejected reason) o.broker_id_to_order (ground arith) in_step.order_table
          (reject_arc e.order.state e.fsm.state in_step.same_state st' live))
  ]

  pub handle_expiry-Agrees :
      (ts : ℕ)
      → e.order.state ≢ pending
      → e.order.state ≢ submitted
      → Agrees (handle_expiry id ts o).1
  handle_expiry-Agrees ts st st' = elim (Bool-cases (is_terminal e.order.state)) [
    | inl over ↦ rw ((handlers_over id e o known ts "" over).2) agrees
    | inr live ↦ rw (handle_expiry_live id e o known ts live) (
        settle-Agrees id ts expire expired e o agrees order_expired o.broker_id_to_order
          (ground arith) in_step.order_table
          (expire_arc e.order.state e.fsm.state in_step.same_state st st' live))
  ]

-- A positive quantity never divides by zero.
pub filled_entry-none :
    (ts : ℕ) (fill : Fill) (e : Entry) → 0 < fill.qty → filled_entry ts fill e ≢ none
unfolding filled_entry
filled_entry-none ts fill e h k = ground arith

-- A fill does not touch the machine.
pub filled_entry-some :
    (ts : ℕ) (fill : Fill) (e e' : Entry) → filled_entry ts fill e ≡ some e' → e'.fsm ≡ e.fsm
unfolding filled_entry
filled_entry-some ts fill e e' h = ground arith

pub same_fill_event :
    (fill : Fill) (e : Entry) (st st' : OrderState)
    → st ≡ st'
    → (st ≡ accepted) ⊎ (st ≡ partial)
    → order_next st' (fill_event fill e) ≡ some (state_after_fill fill e)
same_fill_event fill e st st' same h = fill_arc st st' fill e same h

module _ (id : ℕ) (e : Entry) (o : Oms) (agrees : Agrees o) (known : lookup id o.entries ≡ some e)
    (in_step : InStep e) where
  pub handle_fill-Agrees :
      (fill : Fill) (ts : ℕ)
      → (e.order.state ≡ accepted) ⊎ (e.order.state ≡ partial)
      → 0 < fill.qty
      → Agrees (handle_fill id fill ts o).1
  handle_fill-Agrees fill ts st positive =
      let stamped = stamp_fill e.order fill in
      elim (Option-cases (filled_entry ts stamped e)) [
        | inl zero ↦ absurd (filled_entry-none ts stamped e positive zero)
        | inr (e', found) ↦
            let same = filled_entry-some ts stamped e e' found in
            rw (handle_fill_done id e o known fill ts e' found) (
              settle-Agrees id ts (fill_event stamped e) (state_after_fill stamped e) e' o agrees
                (fill_received stamped) o.broker_id_to_order (ground arith)
                (rw same in_step.order_table)
                (rw same
                  (same_fill_event stamped e e.order.state e.fsm.state in_step.same_state st)))
      ]

pub log_intent-Agrees :
    (order : Order) (now : ℕ) (o : Oms)
    → order.state ≡ pending
    → IsPlain order
    → lookup order.id o.entries ≡ none
    → Agrees o
    → Agrees (log_intent order now o)
unfolding log_intent order_next
log_intent-Agrees order now o st plain fresh agrees =
    settle-Agrees order.id now submit submitted
      (record { order = order; fsm = order_machine pending; fills = [] }) o agrees
      (order_submit_intent (serialize_order order)) o.broker_id_to_order
      (rw ((deserialize-serialize_order order).1 plain) (ground arith)) refl refl
