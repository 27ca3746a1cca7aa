-- ===== src/Oms/Agreement.antt =====
-- Crash recovery: a row of the log and the live transition that goes with it change the state in the
-- same way.
pub mod Calls
pub mod Cancel
use multi_agent_llm_trading.Prelude.{
  ℕ, ◌+◌, ◌≡◌, ◌≢◌, refl, ◌⊎◌, sym, ap, ◌∙◌, String, Bool, true, false, Option, none, some, List,
  [], ◌∷◌, push, foldl-push, nat_eq, string_eq, arith, if◌then◌else◌, Bool-cases, inl, inr,
}
use multi_agent_llm_trading.Prelude.Dict.{Dict, lookup, insert}
use multi_agent_llm_trading.Types.{
  OrderState, OrderEvent, order_state_eq, order_event_eq, submit, accept, partial_fill, full_fill,
  cancel, reject, expire, pending, submitted, accepted, partial, filled, cancelled, rejected,
  expired, Order, Fill,
}
use multi_agent_llm_trading.Fsm.{trigger}
use multi_agent_llm_trading.Fsm.OrderFsm.{
  OrderMachine, order_machine, order_next, order_transitions, trigger-order_next, is_terminal,
  step_order,
}
use multi_agent_llm_trading.Oms.Vocabulary.{
  LoggedEvent, EventKind, order_submit_intent, order_accepted, order_rejected, fill_received,
  order_cancelled, order_expired, fill_published,
}
use multi_agent_llm_trading.Oms.State.{
  Entry, Oms, append_log, publish, put_entry, transition_entry, is_fully_filled,
}
use multi_agent_llm_trading.Oms.Serialize.{
  IsPlain, deserialize-serialize_order, serialize_order, deserialize_order,
}
use multi_agent_llm_trading.Oms.Handlers.{
  settle, record_accepted, handle_fill, handle_cancellation, handle_rejection, handle_expiry,
  accepted_entry, rejected_entry, filled_entry, fill_event, same_id, stamp_fill,
}
use multi_agent_llm_trading.Oms.Api.{force_state}
use multi_agent_llm_trading.Oms.Replay.{
  Book, book_of, apply_kind, apply_logged_event, replay_from, replay_log, replay_step, change,
  state_after_fill,
}

-- Replaying the log from nothing gives the state in memory.
abbrev pub Agrees : Oms → Type 0
Agrees o = replay_log o.store ≡ some (book_of o)

-- The machine of an entry is the order machine, and the order's state is the machine's.
pub record InStep (e : Entry) : Type 0 where
  pub same_state : e.order.state ≡ e.fsm.state
  pub order_table : e.fsm.table ≡ order_transitions

-- Where the machine has an arc, the live transition and the forced one of a replay are the same.
pub transition-force_state :
    (id ts : ℕ) (ev : OrderEvent) (st : OrderState) (e : Entry)
    → e.fsm.table ≡ order_transitions
    → order_next e.fsm.state ev ≡ some st
    → ((transition_entry id ev ts e).0 ≡ force_state ev st e)
      × InStep (transition_entry id ev ts e).0
unfolding transition_entry
transition-force_state id ts ev st e table arc =
    let fired = trigger-order_next e.fsm ev table in ground arith

-- One more row of a log that agrees is one more step of the replay.
pub replay_log-push :
    (rows : List LoggedEvent) (row : LoggedEvent) (b : Book)
    → replay_log rows ≡ some b
    → replay_log (push rows row) ≡ apply_logged_event row b
unfolding replay_from
replay_log-push rows row b h = foldl-push replay_step _ rows row ∙ ap (λ acc. replay_step acc row) h

-- A row and the live transition that goes with it keep the agreement.
module _ (id ts : ℕ) (ev : OrderEvent) (st : OrderState) (e : Entry) (o : Oms)
    (agrees : Agrees o) where
  pub settle-Agrees :
      (kind : EventKind) (bids : Dict String ℕ)
      → apply_kind id ts kind (book_of o)
        ≡ some (record {
          entries = insert id (force_state ev st e) o.entries;
          broker_id_to_order = bids;
        })
      → e.fsm.table ≡ order_transitions
      → order_next e.fsm.state ev ≡ some st
      → Agrees (settle id ev ts e (record (append_log id kind ts o) { broker_id_to_order = bids }))
  unfolding apply_logged_event
  settle-Agrees kind bids applied table arc =
      let row : LoggedEvent = record { ts = ts; kind = kind; order_id = id } in
      let (same, _) = transition-force_state id ts ev st e table arc in
      rw (replay_log-push o.store row (book_of o) agrees) (rw same applied)

pub cancel_arc :
    (st st' : OrderState)
    → st ≡ st'
    → st ≢ pending
    → is_terminal st ≡ false
    → order_next st' cancel ≡ some cancelled
unfolding order_next
cancel_arc st st' e ne live = ground arith

pub reject_arc :
    (st st' : OrderState)
    → st ≡ st'
    → st ≢ partial
    → is_terminal st ≡ false
    → order_next st' reject ≡ some rejected
unfolding order_next
reject_arc st st' e ne live = ground arith

pub expire_arc :
    (st st' : OrderState)
    → st ≡ st'
    → st ≢ pending
    → st ≢ submitted
    → is_terminal st ≡ false
    → order_next st' expire ≡ some expired
unfolding order_next
expire_arc st st' e ne ne' live = ground arith

pub fill_arc :
    (st st' : OrderState) (fill : Fill) (e : Entry)
    → st ≡ st'
    → (st ≡ accepted) ⊎ (st ≡ partial)
    → order_next st' (fill_event fill e) ≡ some (state_after_fill fill e)
unfolding order_next
fill_arc st st' fill e h k = ground arith
