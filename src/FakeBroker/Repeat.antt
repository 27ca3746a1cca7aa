-- ===== src/FakeBroker/Repeat.antt =====
-- execution/fake_broker.py: a submission that is made twice.
use multi_agent_llm_trading.Prelude.{
  ◌≡◌, ◌⊎◌, refl, String, none, some, inl, inr, string_eq, nat_eq, arith,
}
use multi_agent_llm_trading.Prelude.Dict.{lookup, insert, lookup-insert_self}
use multi_agent_llm_trading.Types.{order_state_eq, order_event_eq, Order}
use multi_agent_llm_trading.FakeBroker.{
  FillMode, broker_rejection, FakeBroker, returns, raises, record_fill,
}
use multi_agent_llm_trading.FakeBroker.Orders.{Draws, submit_order, enter_order, take_order}

first_by_mode :
    (mode : FillMode) (draws : Draws) (order : Order) (b : FakeBroker)
    → b.raise_on_next_submit ≡ none
    → let out = take_order mode draws order b in
      (out.1.client_to_broker ≡ insert order.id draws.broker_id b.client_to_broker)
      × (out.1.raise_on_next_submit ≡ none)
      × ((out.0 ≡ returns draws.broker_id) ⊎ (out.0 ≡ raises broker_rejection))
unfolding enter_order record_fill
first_by_mode FillMode.instant draws order b no_failure = (refl, no_failure, inl refl)
first_by_mode FillMode.manual draws order b no_failure = (refl, no_failure, inl refl)
first_by_mode FillMode.reject draws order b no_failure = (refl, no_failure, inr refl)
first_by_mode FillMode.partial_then_hold draws order b no_failure = (refl, no_failure, inl refl)

submit_order-known :
    (draws : Draws) (order : Order) (k : String) (b : FakeBroker)
    → b.raise_on_next_submit ≡ none
    → lookup order.id b.client_to_broker ≡ some k
    → submit_order draws order b ≡ (returns k, b)
unfolding submit_order
submit_order-known draws order k b no_failure known = ground arith

-- With no injected failure, a submission of an order whose client id is new ends in the broker id
-- that it drew or in a rejection, in every fill mode; submitted again, with whatever draws, the
-- order gets that same broker id, and the broker stays as it is: no second order, fill or event. So
-- after a rejection the repetition returns an id where the first call raised.
pub submit_order_twice :
    (draws draws' : Draws) (order : Order) (b : FakeBroker)
    → b.raise_on_next_submit ≡ none
    → lookup order.id b.client_to_broker ≡ none
    → let first = submit_order draws order b in
      ((first.0 ≡ returns draws.broker_id) ⊎ (first.0 ≡ raises broker_rejection))
      × (submit_order draws' order first.1 ≡ (returns draws.broker_id, first.1))
unfolding submit_order
submit_order_twice draws draws' order b no_failure new =
    let (index, calm, reply) = first_by_mode b.fill_mode draws order b no_failure in
    let same : submit_order draws order b ≡ take_order b.fill_mode draws order b = ground arith in
    rw same (
      reply,
      submit_order-known draws' order draws.broker_id (take_order b.fill_mode draws order b).1 calm
          (rw index (lookup-insert_self order.id draws.broker_id b.client_to_broker)),
    )
