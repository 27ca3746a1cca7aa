-- ===== src/FakeBroker/Wired/Instant.antt =====
-- execution/oms.py over execution/fake_broker.py: an order that FakeBroker fills at once.
use multi_agent_llm_trading.Prelude.{
  ℕ, ◌≡◌, refl, ap, String, true, false, none, some, List, [], ◌∷◌, string_eq, nat_eq, arith,
}
use multi_agent_llm_trading.Prelude.Dict.{lookup, insert, lookup-insert_self}
use multi_agent_llm_trading.Types.{order_state_eq, order_event_eq, pending, filled, Order, Fill}
use multi_agent_llm_trading.Oms.Vocabulary.{BrokerOrderState, BrokerOrderStatus, BrokerOrderEvent}
use multi_agent_llm_trading.Oms.State.{Oms, ok}
use multi_agent_llm_trading.Oms.Handlers.{is_mapped}
use multi_agent_llm_trading.Oms.Api.{
  SubmitReply, takes, rejects, unavailable, SubmitResult, deliver, conclude, force_state, placed,
  log_intent,
}
use multi_agent_llm_trading.Oms.Api
use multi_agent_llm_trading.Oms.Lifecycle.{Keeps}
use multi_agent_llm_trading.Oms.Submission.{sent, placed-log_intent, sent-force_state}
use multi_agent_llm_trading.FakeBroker.{
  FillMode, FakeBroker, returns, Call, price_for, event_of, fill_of, fill_state, filled_order,
  apply_fill_to_account, BrokerOrder, record_fill,
}
use multi_agent_llm_trading.FakeBroker.Orders.{
  Draws, fresh_order, submit_order, enter_order, take_order, get_order,
}
use multi_agent_llm_trading.FakeBroker.Wired.{
  submit_reply, events_of, submit_through, IsSent, IsDone, after_fill, deliver_two,
  after_fill-IsDone,
}

module _ (draws : Draws) (order : Order) (b : FakeBroker) (mode : b.fill_mode ≡ FillMode.instant)
    (no_failure : b.raise_on_next_submit ≡ none)
    (new : lookup order.id b.client_to_broker ≡ none) where
  abbrev bought_at : ℕ
  bought_at = price_for order.symbol order.limit_price b

  abbrev entered : BrokerOrder
  entered = fresh_order draws order BrokerOrderState.accepted none

  abbrev whole_fill : Fill
  whole_fill = fill_of draws.fill_id order.qty bought_at draws.filled_at entered

  abbrev accepted_event : BrokerOrderEvent
  accepted_event = event_of entered.status BrokerOrderState.accepted none none draws.now

  abbrev filled_event : BrokerOrderEvent
  filled_event =
      event_of entered.status (fill_state entered.status order.qty) (some whole_fill) none
        draws.filled_at

  abbrev answered : Call String
  answered = submit_order draws order (record b { callback = some [] })

  whole_state : fill_state entered.status order.qty ≡ BrokerOrderState.filled
  whole_state = ground arith

  answered_lem :
      (answered.0 ≡ returns draws.broker_id)
      × (events_of answered.1 ≡ accepted_event ∷ filled_event ∷ [])
      × (lookup draws.broker_id answered.1.orders
          ≡ some (filled_order bought_at draws.fill_id order.qty bought_at draws.filled_at entered))
  unfolding submit_order enter_order record_fill apply_fill_to_account
  answered_lem =
      let same : answered
          ≡ take_order FillMode.instant draws order (record b { callback = some [] }) =
        ground arith in
      rw same
        (refl, refl, lookup-insert_self draws.broker_id _ (insert draws.broker_id entered b.orders))

-- The rest of the OMS's call, once the callbacks have done their work.
conclude_done :
    (id qty later : ℕ) (bid : String) (o : Oms)
    → IsDone id qty bid o
    → (result : SubmitResult) × (conclude id later (takes bid) o ≡ (ok result, o))
      × (result.order.state ≡ filled)
      × (result.order.filled_qty ≡ qty)
      × (result.broker_order_id ≡ some bid)
conclude_done id qty later bid o (e, known, st, full, mapped) = (
  record {
    order = e.order;
    broker_order_id = some bid;
    was_accepted = true;
    rejection_reason = none;
  },
  ground arith,
  st,
  full,
  refl,
)

-- A submission whose callbacks and whose conclusion are known.
submit_order-answered :
    (order : Order) (now later : ℕ) (events : List BrokerOrderEvent) (bid : String) (o o' : Oms)
    (result : SubmitResult)
    → order.state ≡ pending
    → deliver later events (placed order.id (log_intent order now o)) ≡ (ok tt, o')
    → conclude order.id later (takes bid) o' ≡ (ok result, o')
    → Api.submit_order order now later events (takes bid) o ≡ (ok result, o')
unfolding Api.submit_order
submit_order-answered order now later events bid o o' result st delivered concluded = ground arith

sent-IsSent :
    (order : Order) (now : ℕ) (o : Oms)
    → order.broker_order_id ≡ none
    → order.filled_qty ≡ 0
    → order.filled_avg_price ≡ none
    → is_mapped order.id o.broker_id_to_order ≡ false
    → IsSent order.id order.qty (placed order.id (log_intent order now o)) (sent order now)
sent-IsSent order now o no_id unfilled no_average unmapped =
    let (known, _, mapped) = placed-log_intent order now o in
    let (is_sent, step) = sent-force_state order now in
    record {
      known = known;
      step = step;
      is_submitted = rw is_sent refl;
      no_id = rw is_sent no_id;
      unfilled = rw is_sent unfilled;
      no_average = rw is_sent no_average;
      whole = rw is_sent refl;
      unmapped = rw mapped unmapped;
    }

-- An order that is new, submitted by the OMS to the broker in INSTANT mode with no injected failure
-- and under a client id that neither of them has seen, comes back FILLED, with its whole quantity
-- filled and the broker's id: the OMS holds it so, and so does the broker.
pub submit_through-fills :
    (text : String) (draws : Draws) (order : Order) (now later : ℕ) (b : FakeBroker) (o : Oms)
    → b.fill_mode ≡ FillMode.instant
    → b.raise_on_next_submit ≡ none
    → lookup order.id b.client_to_broker ≡ none
    → order.state ≡ pending
    → order.broker_order_id ≡ none
    → order.filled_qty ≡ 0
    → order.filled_avg_price ≡ none
    → is_mapped order.id o.broker_id_to_order ≡ false
    → let (out, b') = submit_through text draws order now later b o in
      (result : SubmitResult) × (status : BrokerOrderStatus) × (out.0 ≡ ok result)
      × (result.order.state ≡ filled)
      × (result.order.filled_qty ≡ order.qty)
      × (result.broker_order_id ≡ some draws.broker_id)
      × Keeps order.id filled out.1
      × (get_order draws.broker_id b' ≡ returns status)
      × (status.state ≡ BrokerOrderState.filled)
      × (status.filled_qty ≡ order.qty)
unfolding submit_through get_order
submit_through-fills text draws order now later b o mode no_failure new st no_id unfilled no_average
      unmapped =
    let e = sent order now in
    let o' = placed order.id (log_intent order now o) in
    let fill = whole_fill draws order b mode no_failure new in
    let ready = sent-IsSent order now o no_id unfilled no_average unmapped in
    let (took, events, stored) = answered_lem draws order b mode no_failure new in
    let done =
      deliver_two order.id later e o' draws.broker_id draws.now draws.filled_at fill ready
        (accepted_event draws order b mode no_failure new)
        (filled_event draws order b mode no_failure new) refl refl refl refl refl
        (whole_state draws order b mode no_failure new) refl refl in
    let final =
      after_fill-IsDone order.id later e o' draws.broker_id draws.now draws.filled_at fill ready in
    let (result, concluded, is_filled, full, id) =
      conclude_done order.id order.qty later draws.broker_id
        (after_fill order.id later e o' draws.broker_id draws.now draws.filled_at fill ready)
        final in
    let held =
      filled_order (bought_at draws order b mode no_failure new) draws.fill_id order.qty
        (bought_at draws order b mode no_failure new) draws.filled_at
        (entered draws order b mode no_failure new) in
    let out : Api.submit_order order now later
          (events_of (answered draws order b mode no_failure new).1)
          (submit_reply text (answered draws order b mode no_failure new).0) o
        ≡ (
          ok result,
          after_fill order.id later e o' draws.broker_id draws.now draws.filled_at fill ready,
        ) =
      rw (took, events)
        (submit_order-answered order now later
          (accepted_event draws order b mode no_failure new
            ∷ filled_event draws order b mode no_failure new
            ∷ [])
          draws.broker_id o
          (after_fill order.id later e o' draws.broker_id draws.now draws.filled_at fill ready)
          result st done concluded) in
    (
      result,
      held.status,
      ap (λ x. x.0) out,
      is_filled,
      full,
      id,
      rw out (final.0, final.1, final.2),
      rw (get_order, stored) refl,
      whole_state draws order b mode no_failure new,
      omega arith,
    )
