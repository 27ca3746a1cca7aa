-- ===== src/Oms/Replay.antt =====
-- `_replay_log`: the in-memory state as the log alone gives it.
use multi_agent_llm_trading.Prelude.{
  ℕ, ◌+◌, String, Option, none, some, List, [], foldl, nat_eq, string_eq, if◌then◌else◌,
}
use multi_agent_llm_trading.Prelude.Dict.{Dict, lookup, insert}
use multi_agent_llm_trading.Types.{
  OrderState, order_state_eq, order_event_eq, submit, accept, cancel, reject, expire, pending,
  submitted, accepted, partial, filled, cancelled, rejected, expired, Fill,
}
use multi_agent_llm_trading.Fsm.OrderFsm.{order_machine}
use multi_agent_llm_trading.Oms.Vocabulary.{
  LoggedEvent, EventKind, order_submit_intent, order_accepted, order_rejected, fill_received,
  order_cancel_requested, order_cancelled, order_expired, reconcile_noop, reconcile_recovered,
  reconcile_abandoned,
}
use multi_agent_llm_trading.Oms.State.{Entry, Oms, is_fully_filled}
use multi_agent_llm_trading.Oms.Serialize.{deserialize_order}
use multi_agent_llm_trading.Oms.Handlers.{accepted_entry, rejected_entry, filled_entry, fill_event}
use multi_agent_llm_trading.Oms.Api.{force_state}

-- What the log determines.
pub record Book : Type 0 where
  pub entries : Dict ℕ Entry
  pub broker_id_to_order : Dict String ℕ

abbrev pub book_of : Oms → Book
book_of o = record { entries = o.entries; broker_id_to_order = o.broker_id_to_order }

abbrev pub empty_book : Book
empty_book = record { entries = []; broker_id_to_order = [] }

abbrev pub put : ℕ → Entry → Book → Book
put order_id e b = record b { entries = insert order_id e b.entries }

-- A change of one entry; `none` is a KeyError.
abbrev pub change : ℕ → (Entry → Option Entry) → Book → Option Book
change order_id f b = elim (lookup order_id b.entries) [
  | none ↦ none
  | some e ↦ elim (f e) [ none ↦ none | some e' ↦ some (put order_id e' b) ]
]

-- `setdefault(order_id, [])`
abbrev pub old_fills : Option Entry → List Fill
old_fills none = []
old_fills (some e) = e.fills

abbrev pub state_after_fill : Fill → Entry → OrderState
state_after_fill fill e =
    if is_fully_filled e.order.qty (e.order.filled_qty + fill.qty) then filled else partial

-- The `match` of `_apply_logged_event`. The state is set whether or not the machine has an arc.
abbrev pub apply_kind : ℕ → ℕ → EventKind → Book → Option Book
apply_kind order_id ts (order_submit_intent payload) b = some (
    put order_id
      (force_state submit submitted (record {
        order = deserialize_order payload;
        fsm = order_machine pending;
        fills = old_fills (lookup order_id b.entries);
      }))
      b)
apply_kind order_id ts (order_accepted bid) b =
    change order_id (λ e. some (force_state accept accepted (accepted_entry bid ts e)))
      (record b { broker_id_to_order = insert bid order_id b.broker_id_to_order })
apply_kind order_id ts (order_rejected reason) b =
    change order_id (λ e. some (force_state reject rejected (rejected_entry reason e))) b
apply_kind order_id ts (fill_received fill) b =
    change order_id
      (λ e. elim (filled_entry ts fill e) [
        | none ↦ none
        | some e' ↦ some (force_state (fill_event fill e) (state_after_fill fill e) e')
      ])
      b
apply_kind order_id ts (order_cancel_requested bid) b = some b
apply_kind order_id ts (order_cancelled reason) b =
    change order_id (λ e. some (force_state cancel cancelled e)) b
apply_kind order_id ts order_expired b =
    change order_id (λ e. some (force_state expire expired e)) b
apply_kind order_id ts (reconcile_noop _) b = some b
apply_kind order_id ts (reconcile_recovered _) b = some b
apply_kind order_id ts (reconcile_abandoned _) b = some b

unfoldable pub apply_logged_event : LoggedEvent → Book → Option Book
apply_logged_event row b = apply_kind row.order_id row.ts row.kind b

abbrev pub replay_step : Option Book → LoggedEvent → Option Book
replay_step none row = none
replay_step (some b) row = apply_logged_event row b

-- The loop of `_replay_log`, over the memory as it is.
unfoldable pub replay_from : Book → List LoggedEvent → Option Book
replay_from b rows = foldl replay_step (some b) rows

-- `_replay_log` after construction.
abbrev pub replay_log : List LoggedEvent → Option Book
replay_log = replay_from empty_book
