-- ===== src/FakeBroker/Wired.antt =====
-- execution/oms.py over execution/fake_broker.py: a submission of the OMS that FakeBroker answers,
-- and what the OMS makes of the two events of an instant fill.
pub mod Instant
use multi_agent_llm_trading.Prelude.{
  ℕ, ◌≡◌, ◌⊎◌, refl, ap, String, true, false, none, some, List, [], ◌∷◌, inl, inr, string_eq,
  nat_eq, arith,
}
use multi_agent_llm_trading.Prelude.Dict.{lookup, insert, contains, lookup-insert_self}
use multi_agent_llm_trading.Types.{
  order_state_eq, order_event_eq, pending, submitted, accepted, filled, accept, full_fill, Order,
  Fill,
}
use multi_agent_llm_trading.Fsm.OrderFsm.{order_next}
use multi_agent_llm_trading.Oms.Vocabulary.{
  BrokerOrderState, BrokerOrderStatus, BrokerOrderEvent, order_accepted, fill_received,
  fill_published,
}
use multi_agent_llm_trading.Oms.State.{Entry, Oms, Outcome, ok, append_log, publish}
use multi_agent_llm_trading.Oms.Handlers.{
  settle, filled_entry, stamp_fill, fill_event, accepted_entry, on_broker_event, is_mapped,
  with_fill,
}
use multi_agent_llm_trading.Oms.Api.{
  SubmitReply, takes, rejects, unavailable, SubmitResult, deliver, conclude, force_state, placed,
  log_intent,
}
use multi_agent_llm_trading.Oms.Api
use multi_agent_llm_trading.Oms.Agreement.{InStep}
use multi_agent_llm_trading.Oms.Lifecycle.{Keeps}
use multi_agent_llm_trading.Oms.Delivery.{settle-forced, accept_event, fill_event_lem}
use multi_agent_llm_trading.Oms.Submission.{sent, placed-log_intent, sent-force_state}
use multi_agent_llm_trading.FakeBroker.{
  FillMode, BrokerFailure, broker_rejection, FakeBroker, Reply, returns, raises, Call, price_for,
  event_of, fill_of, fill_state, filled_order, apply_fill_to_account, BrokerOrder, record_fill,
}
use multi_agent_llm_trading.FakeBroker.Orders.{
  Draws, fresh_order, submit_order, enter_order, take_order, get_order,
}

-- What the OMS makes of the broker's answer. `text` is that of a rejection; any other exception
-- passes through the OMS as an outage does.
abbrev pub submit_reply : String → Reply String → SubmitReply
submit_reply text (returns k) = takes k
submit_reply text (raises BrokerFailure.broker_rejection) = rejects text
submit_reply text (raises _) = unavailable

-- The callback is registered when the OMS is built: what it is given is what is delivered.
abbrev pub events_of : FakeBroker → List BrokerOrderEvent
events_of b = elim b.callback [ none ↦ [] | some given ↦ given ]

-- The OMS submits to the broker. `later` is its clock after the call.
unfoldable pub submit_through :
    String → Draws → Order → (now later : ℕ) → FakeBroker → Oms → Outcome SubmitResult × FakeBroker
submit_through text draws order now later b o =
    let (reply, b') = submit_order draws order (record b { callback = some [] }) in
    (Api.submit_order order now later (events_of b') (submit_reply text reply) o, b')

-- An order that is submitted and has no fill, as the OMS holds it when the broker is called.
pub record IsSent (id : ℕ) (qty : ℕ) (o : Oms) (e : Entry) : Type 0 where
  pub known : lookup id o.entries ≡ some e
  pub step : InStep e
  pub is_submitted : e.order.state ≡ submitted
  pub no_id : e.order.broker_order_id ≡ none
  pub unfilled : e.order.filled_qty ≡ 0
  pub no_average : e.order.filled_avg_price ≡ none
  pub whole : e.order.qty ≡ qty
  pub unmapped : is_mapped id o.broker_id_to_order ≡ false

-- What the OMS holds of an order after the two events of an instant fill.
abbrev pub IsDone : ℕ → ℕ → String → Oms → Type 0
IsDone id qty bid o =
    (e : Entry) × (lookup id o.entries ≡ some e)
    × (e.order.state ≡ filled)
    × (e.order.filled_qty ≡ qty)
    × (contains bid o.broker_id_to_order ≡ true)

module _ (id now : ℕ) (e : Entry) (o : Oms) (bid : String) (ts ts' : ℕ) (fill : Fill)
    (ready : IsSent id fill.qty o e) where
  abbrev taken : Entry
  taken = force_state accept accepted (accepted_entry bid ts e)

  abbrev o_taken : Oms
  o_taken =
      settle id accept ts (accepted_entry bid ts e)
        (record (append_log id (order_accepted bid) ts o) {
          broker_id_to_order = insert bid id o.broker_id_to_order;
        })

  lookup-taken : (lookup id o_taken.entries ≡ some taken) × InStep taken
  unfolding order_next
  lookup-taken =
      settle-forced id ts accept accepted (accepted_entry bid ts e)
        (record (append_log id (order_accepted bid) ts o) {
          broker_id_to_order = insert bid id o.broker_id_to_order;
        })
        (record { same_state = ready.step.same_state; order_table = ready.step.order_table })
        (rw ready.is_submitted refl)

  abbrev stamped : Fill
  stamped = stamp_fill taken.order fill

  abbrev complete : Entry
  complete = record (with_fill stamped taken) {
    order = record taken.order {
      filled_qty = fill.qty;
      filled_avg_price = some fill.price;
      filled_at = some ts';
    };
  }

  filled_up :
      (filled_entry ts' stamped taken ≡ some complete) × (fill_event stamped taken ≡ full_fill)
  unfolding filled_entry
  filled_up =
      let none_filled = ready.unfilled in
      let no_average = ready.no_average in let whole = ready.whole in (ground arith, ground arith)

  abbrev pub after_fill : Oms
  after_fill =
      publish (fill_published stamped ∷ [])
        (settle id full_fill ts' complete (append_log id (fill_received stamped) ts' o_taken))

  pub deliver_two :
      (event event' : BrokerOrderEvent)
      → event.client_order_id ≡ id
      → event.new_state ≡ BrokerOrderState.accepted
      → event.timestamp ≡ some ts
      → event.broker_order_id ≡ bid
      → event'.client_order_id ≡ id
      → event'.new_state ≡ BrokerOrderState.filled
      → event'.fill ≡ some fill
      → event'.timestamp ≡ some ts'
      → deliver now (event ∷ event' ∷ []) o ≡ (ok tt, after_fill)
  unfolding deliver
  deliver_two event event' client st at bid_same client' st' some_fill at' =
      let (known, step) = lookup-taken in
      let (totals, full) = filled_up in
      let one : on_broker_event now event o ≡ (ok tt, o_taken) =
        rw (← bid_same)
          (accept_event id now e o ready.known event ts client st at ready.no_id ready.unmapped) in
      let two =
        fill_event_lem id now taken o_taken known event' fill ts' complete client' st' some_fill at'
          totals in
      rw (deliver, one, two, full) refl

  pub after_fill-IsDone : IsDone id fill.qty bid after_fill
  unfolding order_next
  after_fill-IsDone =
      let (known, step) = lookup-taken in
      let (at, _) =
        settle-forced id ts' full_fill filled complete
          (append_log id (fill_received stamped) ts' o_taken)
          (record { same_state = step.same_state; order_table = step.order_table }) refl in
      let mapped = lookup-insert_self bid id o.broker_id_to_order in
      (force_state full_fill filled complete, at, refl, refl, rw (contains, mapped) refl)
