-- ===== src/Oms/Divergence.antt =====
-- Where a live OMS and its replay part: a replay sets the state of an order on every row, and the
-- live code moves it only along an arc of the machine.
use multi_agent_llm_trading.Prelude.{
  push, ◌∙◌, ◌+◌, inl, inr, ◌+◌, inl, inr, ℕ, ◌<◌, ◌≡◌, ◌≢◌, refl, Option, none, some, nat_eq,
  arith, Option-cases,
}
use multi_agent_llm_trading.Prelude.Dict.{lookup, lookup-insert_self}
use multi_agent_llm_trading.Types.{OrderState, OrderEvent, accepted, partial, filled, Fill}
use multi_agent_llm_trading.Fsm.OrderFsm.{order_next, trigger-order_next}
use multi_agent_llm_trading.Oms.Vocabulary.{LoggedEvent, LoggedEvent, fill_received}
use multi_agent_llm_trading.Oms.State.{Entry, Oms, transition_entry, append_log}
use multi_agent_llm_trading.Oms.Handlers.{handle_fill, filled_entry, fill_event, stamp_fill}
use multi_agent_llm_trading.Oms.Api.{force_state}
use multi_agent_llm_trading.Oms.Api.{force_state}
use multi_agent_llm_trading.Oms.Replay.{
  put, replay_log, book_of, apply_kind, apply_logged_event, state_after_fill,
}
use multi_agent_llm_trading.Oms.Agreement.{Agrees, InStep, replay_log-push}
use multi_agent_llm_trading.Oms.Agreement.Calls.{
  handle_fill_done, filled_entry-some, filled_entry-none,
}

-- With no arc, the live transition leaves the entry as it is.
pub transition_entry_stuck :
    (id ts : ℕ) (ev : OrderEvent) (e : Entry)
    → InStep e
    → order_next e.fsm.state ev ≡ none
    → (transition_entry id ev ts e).0 ≡ e
unfolding transition_entry
transition_entry_stuck id ts ev e step arc =
    let fired = trigger-order_next e.fsm ev step.order_table in ground arith

no_fill_arc :
    (st st' : OrderState) (fill : Fill) (e : Entry)
    → st ≡ st'
    → st ≢ accepted
    → st ≢ partial
    → order_next st' (fill_event fill e) ≡ none
unfolding order_next
no_fill_arc st st' fill e h k k' = ground arith

pub filled_entry_state :
    (ts : ℕ) (fill : Fill) (e e' : Entry)
    → filled_entry ts fill e ≡ some e'
    → e'.order.state ≡ e.order.state
unfolding filled_entry
filled_entry_state ts fill e e' h = ground arith

-- The entry of an order that the replay of the log gives.
abbrev pub replayed_entry : ℕ → Oms → Option Entry
replayed_entry id o = elim (replay_log o.store) [ none ↦ none | some b ↦ lookup id b.entries ]

-- The row of a fill, replayed.
fill_row :
    (id : ℕ) (e e' : Entry) (o : Oms) (fill : Fill) (ts : ℕ)
    → lookup id o.entries ≡ some e
    → filled_entry ts fill e ≡ some e'
    → apply_kind id ts (fill_received fill) (book_of o)
      ≡ some (put id (force_state (fill_event fill e) (state_after_fill fill e) e') (book_of o))
fill_row id e e' o fill ts known found = ground arith

replayed_entry-fill :
    (id : ℕ) (e e' : Entry) (o : Oms) (fill : Fill) (ts : ℕ)
    → Agrees o
    → lookup id o.entries ≡ some e
    → filled_entry ts fill e ≡ some e'
    → replayed_entry id (append_log id (fill_received fill) ts o)
      ≡ some (force_state (fill_event fill e) (state_after_fill fill e) e')
unfolding apply_logged_event
replayed_entry-fill id e e' o fill ts agrees known found =
    let row : LoggedEvent = record { ts = ts; kind = fill_received fill; order_id = id } in
    let there = force_state (fill_event fill e) (state_after_fill fill e) e' in
    let replayed : replay_log (push o.store row) ≡ some (put id there (book_of o)) =
      replay_log-push o.store row (book_of o) agrees ∙ fill_row id e e' o fill ts known found in
    rw (replayed, replayed_entry) (lookup-insert_self id there o.entries)

filled_entry_qty :
    (ts : ℕ) (fill : Fill) (e e' : Entry)
    → filled_entry ts fill e ≡ some e'
    → e'.order.filled_qty ≡ e.order.filled_qty + fill.qty
unfolding filled_entry
filled_entry_qty ts fill e e' h = ground arith

pub filled_entry-InStep :
    (ts : ℕ) (fill : Fill) (e e' : Entry) → filled_entry ts fill e ≡ some e' → InStep e → InStep e'
filled_entry-InStep ts fill e e' h step =
    let same = filled_entry-some ts fill e e' h in
    record {
      same_state = rw (filled_entry_state ts fill e e' h, same) step.same_state;
      order_table = rw same step.order_table;
    }

parts :
    (st : OrderState) (fill : Fill) (e : Entry)
    → st ≢ partial
    → st ≢ filled
    → st ≢ state_after_fill fill e
parts st fill e h k same = ground arith

-- In an OMS that its log rebuilds: a fill that reaches an order, in step with its machine, which is
-- not accepted and not partly filled (it overtook the acceptance, or the order is already over) is
-- counted, and the order stays in its state in memory; the replay of the log that is left makes it
-- filled, or partly filled. Unless the order was filled before, memory and log differ then.
pub fill_out_of_order :
    (id : ℕ) (e : Entry) (o : Oms) (fill : Fill) (ts : ℕ)
    → Agrees o
    → lookup id o.entries ≡ some e
    → InStep e
    → e.order.state ≢ accepted
    → e.order.state ≢ partial
    → 0 < fill.qty
    → let o' = (handle_fill id fill ts o).1 in
      (live : Entry) × (replayed : Entry) × (lookup id o'.entries ≡ some live)
      × (live.order.state ≡ e.order.state)
      × (live.order.filled_qty ≡ e.order.filled_qty + fill.qty)
      × (replayed_entry id o' ≡ some replayed)
      × (replayed.order.state ≡ state_after_fill (stamp_fill e.order fill) e)
      × (e.order.state ≢ filled → live.order.state ≢ replayed.order.state)
fill_out_of_order id e o fill ts agrees known step st st' positive =
    let stamped = stamp_fill e.order fill in
    elim (Option-cases (filled_entry ts stamped e)) [
      | inl zero ↦ absurd (filled_entry-none ts stamped e positive zero)
      | inr (e', found) ↦
          let step' = filled_entry-InStep ts stamped e e' found step in
          let arc : order_next e'.fsm.state (fill_event stamped e) ≡ none =
            rw (filled_entry-some ts stamped e e' found)
              (no_fill_arc e.order.state e.fsm.state stamped e step.same_state st st') in
          let stuck = transition_entry_stuck id ts (fill_event stamped e) e' step' arc in
          (
            e',
            force_state (fill_event stamped e) (state_after_fill stamped e) e',
            rw (handle_fill_done id e o known fill ts e' found)
                (rw stuck (lookup-insert_self id e' o.entries)),
            filled_entry_state ts stamped e e' found,
            filled_entry_qty ts stamped e e' found,
            rw (handle_fill_done id e o known fill ts e' found)
                (replayed_entry-fill id e e' o stamped ts agrees known found),
            refl,
            λ unfilled same.
                let stays = filled_entry_state ts stamped e e' found in
                parts e.order.state stamped e st' unfilled (cc),
          )
    ]
