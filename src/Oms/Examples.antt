-- ===== src/Oms/Examples.antt =====
-- The OMS at a concrete order.
use multi_agent_llm_trading.Prelude.{
  ℕ, nat_eq, ◌+◌, ◌≡◌, ◌≢◌, ◌↔◌, refl, true, Option, none, some, [], ◌∷◌, push, inl, arith,
}
use multi_agent_llm_trading.Prelude.Dict.{lookup}
use multi_agent_llm_trading.Types.{
  AgentId, Order, Fill, OrderSide, pending, submitted, accepted, partial, filled, cancelled,
  rejected, submit, accept, partial_fill, div_half_even,
}
use multi_agent_llm_trading.Fsm.{trigger, find_arc}
use multi_agent_llm_trading.Fsm.OrderFsm.{order_machine}
use multi_agent_llm_trading.Oms.Vocabulary.{BrokerOrderState, BrokerOrderEvent, BrokerOrderStatus}
use multi_agent_llm_trading.Oms.State.{Entry, Oms, transition_entry, ok}
use multi_agent_llm_trading.Oms.Serialize.{
  serialize_order, deserialize_order, IsPlain, deserialize-serialize_order,
}
use multi_agent_llm_trading.Oms.Handlers.{
  handle_fill, filled_entry, on_broker_event, stamp_fill, record_accepted,
}
use multi_agent_llm_trading.Oms.Api.{ghost_order, GhostIds, log_intent, submit_order, takes}
use multi_agent_llm_trading.Oms.Replay.{replay_from, state_after_fill}
use multi_agent_llm_trading.Oms.Recover.{Verdict, reconcile_order}
use multi_agent_llm_trading.Oms.Agreement.{Agrees, InStep}
use multi_agent_llm_trading.Oms.History.{
  Reach, AllInStep, intend, accepts, fills, here, next, replay_log_recovers,
}
use multi_agent_llm_trading.Oms.Divergence.{fill_out_of_order, replayed_entry}
use multi_agent_llm_trading.Oms.Lifecycle.{Keeps, on_broker_event-terminal}
use multi_agent_llm_trading.Oms.Submission.{
  submit_order-state, state_after_reply, store_after_reply,
}
use multi_agent_llm_trading.Oms.Reconcile.{reconcile_order-abandons}

abbrev ids : GhostIds
ids = record { order_id = 1; intent_id = 2; fill_id = 3; broker_id = "b1" }

abbrev order : Order
order = ghost_order ids OrderSide.buy "SPY" 5000000000000000000 AgentId.haiku 10

order-IsPlain : IsPlain order
order-IsPlain = record {
  no_trail = refl;
  no_broker_id = refl;
  no_legs = refl;
  not_submitted = refl;
  not_filled = refl;
  nothing_filled = refl;
  no_average = refl;
  no_reason = refl;
  no_letf_date = refl;
}

abbrev empty : Oms
empty = record { entries = []; broker_id_to_order = []; store = []; bus = [] }

empty-Agrees : Agrees empty
unfolding replay_from
empty-Agrees = refl

empty-AllInStep : AllInStep empty
empty-AllInStep id e known = absurd (ground arith)

-- The OMS after the submission, and the order's entry in it.
abbrev sent_oms : Oms
sent_oms = log_intent order 10 empty

abbrev sent_entry : Entry
sent_entry = record {
  order = record order { state = submitted };
  fsm = record (order_machine pending) {
    state = submitted;
    history = (pending, some submit, submitted) ∷ [];
  };
  fills = [];
}

sent_known : lookup 1 sent_oms.entries ≡ some sent_entry
unfolding log_intent transition_entry trigger find_arc
sent_known = refl

sent-Reach : Reach empty sent_oms
sent-Reach = next here (intend order 10 empty refl order-IsPlain refl)

taken-Reach : Reach empty (record_accepted 1 "b1" 20 sent_oms).1
taken-Reach = next sent-Reach (accepts 1 "b1" 20 sent_entry sent_oms sent_known refl)

deserialize-serialize_order_example :
    (deserialize_order (serialize_order order) ≡ order) ↔ IsPlain order
deserialize-serialize_order_example = deserialize-serialize_order order

replay_log_recovers_example :
    let o = (record_accepted 1 "b1" 20 sent_oms).1 in Agrees o × AllInStep o
replay_log_recovers_example = replay_log_recovers empty-Agrees empty-AllInStep taken-Reach

sent-Agrees : Agrees sent_oms
sent-Agrees = (replay_log_recovers empty-Agrees empty-AllInStep sent-Reach).0

sent-InStep : InStep sent_entry
sent-InStep = record { same_state = refl; order_table = refl }

abbrev fill : Fill
fill = record {
  id = 4;
  order_id = 1;
  agent_id = AgentId.haiku;
  symbol = "SPY";
  side = OrderSide.buy;
  qty = 2000000000000000000;
  price = 100000000000000000000;
  timestamp = 15;
  commission = 0;
  is_partial = true;
}

fill_out_of_order_example :
    let o' = (handle_fill 1 fill 15 sent_oms).1 in
    (live : Entry) × (replayed : Entry) × (lookup 1 o'.entries ≡ some live)
    × (live.order.state ≡ submitted)
    × (live.order.filled_qty ≡ 0 + fill.qty)
    × (replayed_entry 1 o' ≡ some replayed)
    × (replayed.order.state ≡ state_after_fill (stamp_fill sent_entry.order fill) sent_entry)
    × (submitted ≢ filled → live.order.state ≢ replayed.order.state)
fill_out_of_order_example =
    fill_out_of_order 1 sent_entry sent_oms fill 15 sent-Agrees sent_known sent-InStep (λ e. cc)
      (λ e. cc) (omega arith)

-- An order that is over.
abbrev over_entry : Entry
over_entry = record {
  order = record order { state = cancelled };
  fsm = record (order_machine pending) { state = cancelled };
  fills = [];
}

abbrev over_oms : Oms
over_oms = record empty { entries = (1, over_entry) ∷ [] }

abbrev late_fill : BrokerOrderEvent
late_fill = record {
  broker_order_id = "b1";
  client_order_id = 1;
  new_state = BrokerOrderState.filled;
  fill = some fill;
  rejection_reason = none;
  timestamp = none;
}

on_broker_event-terminal_example : Keeps 1 cancelled (on_broker_event 30 late_fill over_oms).1
on_broker_event-terminal_example =
    on_broker_event-terminal 30 late_fill over_entry over_oms refl
      (record { same_state = refl; order_table = refl }) refl

submit_order-state_example :
    let o' = (submit_order order 10 11 [] (takes "b1") empty).1 in
    Keeps 1 (state_after_reply (takes "b1")) o'
    × (o'.store ≡ store_after_reply order 10 11 (takes "b1") [])
submit_order-state_example =
    submit_order-state order 10 11 (takes "b1") empty refl refl (λ bid e. refl)

abbrev nobody : ℕ → Option BrokerOrderStatus
nobody _ = none

-- The order accepted, and partly filled.
abbrev taken_oms : Oms
taken_oms = (record_accepted 1 "b1" 20 sent_oms).1

abbrev taken_entry : Entry
taken_entry = record {
  order = record order { state = accepted; broker_order_id = some "b1"; submitted_at = some 20 };
  fsm = record (order_machine pending) {
    state = accepted;
    history = (pending, some submit, submitted) ∷ (submitted, some accept, accepted) ∷ [];
  };
  fills = [];
}

taken_known : lookup 1 taken_oms.entries ≡ some taken_entry
unfolding log_intent transition_entry trigger find_arc record_accepted
taken_known = refl

abbrev part_oms : Oms
part_oms = (handle_fill 1 fill 25 taken_oms).1

abbrev part_entry : Entry
part_entry = record {
  order = record taken_entry.order {
    state = partial;
    filled_qty = fill.qty;
    filled_avg_price = some fill.price;
  };
  fsm = record taken_entry.fsm {
    state = partial;
    history = push taken_entry.fsm.history (accepted, some partial_fill, partial);
  };
  fills = fill ∷ [];
}

part_known : lookup 1 part_oms.entries ≡ some part_entry
unfolding log_intent transition_entry trigger find_arc record_accepted handle_fill filled_entry
    div_half_even
part_known = refl

part-Agrees : Agrees part_oms
part-Agrees =
    (replay_log_recovers empty-Agrees empty-AllInStep (
      next taken-Reach
        (fills 1 fill 25 taken_entry taken_oms taken_known (inl refl) (omega arith)))).0

reconcile_order-abandons_example :
    let out = reconcile_order nobody (λ id. id) 40 1 part_oms in
    (out.0 ≡ ok Verdict.abandoned)
    × (partial ≢ partial → Keeps 1 rejected out.1)
    × (partial ≡ partial → Keeps 1 partial out.1)
    × (replayed : Entry) × (replayed_entry 1 out.1 ≡ some replayed)
    × (replayed.order.state ≡ rejected)
reconcile_order-abandons_example =
    reconcile_order-abandons 1 40 part_entry part_oms part_known refl nobody (λ id. id) refl
      (record { same_state = refl; order_table = refl }) part-Agrees
