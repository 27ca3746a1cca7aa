-- ===== src/FakeBroker/Examples.antt =====
-- FakeBroker at a concrete order.
use multi_agent_llm_trading.Prelude.{◌≡◌, ◌⊎◌, refl, none, some, List, [], ◌∷◌, nat_eq, string_eq}
use multi_agent_llm_trading.Prelude.Int.{ℤ, pos, ◌-ℤ◌, ◌+ℤ◌}
use multi_agent_llm_trading.Prelude.Dict.{lookup}
use multi_agent_llm_trading.Types.{AgentId, OrderSide, Order, filled, percent, div_half_even}
use multi_agent_llm_trading.Oms.Vocabulary.{BrokerOrderState, BrokerOrderStatus}
use multi_agent_llm_trading.Oms.State.{Oms, ok}
use multi_agent_llm_trading.Oms.Api.{GhostIds, ghost_order, SubmitResult}
use multi_agent_llm_trading.Oms.Handlers.{is_mapped}
use multi_agent_llm_trading.Oms.Lifecycle.{Keeps}
use multi_agent_llm_trading.FakeBroker.{
  FillMode, BrokerOrder, FakeBroker, new_broker, filled_order, returns, raises, broker_rejection,
}
use multi_agent_llm_trading.FakeBroker.Orders.{
  Draws, fresh_order, with_state, submit_order, cancel_order, get_order, get_account,
}
use multi_agent_llm_trading.FakeBroker.Requests.{Request, serve, serve_all, AllDrawFresh}
use multi_agent_llm_trading.FakeBroker.Ledger.{IsBalanced}
use multi_agent_llm_trading.FakeBroker.Books.{serve_all-IsBalanced}
use multi_agent_llm_trading.FakeBroker.Index.{IsFilledRight, serve_all-IsFilledRight}
use multi_agent_llm_trading.FakeBroker.Repeat.{submit_order_twice}
use multi_agent_llm_trading.FakeBroker.Wired.{submit_through}
use multi_agent_llm_trading.FakeBroker.Wired.Instant.{submit_through-fills}

abbrev ids : GhostIds
ids = record { order_id = 1; intent_id = 2; fill_id = 3; broker_id = "b1" }

abbrev order : Order
order = ghost_order ids OrderSide.buy "SPY" (percent 500) AgentId.haiku 10

abbrev draws : Draws
draws = record { broker_id = "b1"; fill_id = 7; now = 20; filled_at = 21 }

abbrev draws_again : Draws
draws_again = record draws { broker_id = "b2" }

abbrev cash : ℤ
cash = pos 30000000000000000000000000000000000000000

-- Half of the order is filled at 200 dollars, and the rest cancelled.
abbrev requests : List Request
requests =
    Request.quote "SPY" (percent 20000) ∷ Request.submit draws order ∷ Request.cancel "b1" 30 ∷ []

abbrev start : FakeBroker
start = new_broker FillMode.partial_then_hold cash

requests_fresh : AllDrawFresh requests start
unfolding new_broker serve
requests_fresh = (tt, (refl, (tt, tt)))

abbrev held : BrokerOrder
held = with_state BrokerOrderState.canceled none 30 (
    filled_order (percent 20000) 7 (percent 250) (percent 20000) 21
      (fresh_order draws order BrokerOrderState.accepted none))

held_lem : lookup "b1" (serve_all requests start).orders ≡ some held
unfolding serve_all serve new_broker submit_order cancel_order div_half_even
held_lem = refl

-- 30,000 dollars less two and a half shares at 200, and their value.
account_lem :
    let account = get_account (serve_all requests start) in
    (account.cash ≡ pos 29500000000000000000000000000000000000000) × (account.equity ≡ cash)
unfolding get_account serve_all serve new_broker submit_order cancel_order div_half_even ◌-ℤ◌ ◌+ℤ◌
account_lem = (refl, refl)

serve_all-IsBalanced_example : IsBalanced (serve_all requests start)
serve_all-IsBalanced_example =
    serve_all-IsBalanced FillMode.partial_then_hold cash requests requests_fresh

serve_all-IsFilledRight_example : IsFilledRight held
serve_all-IsFilledRight_example =
    serve_all-IsFilledRight FillMode.partial_then_hold cash requests requests_fresh "b1" held
      held_lem

abbrev rejecting : FakeBroker
rejecting = new_broker FillMode.reject cash

submit_order_twice_example :
    let first = submit_order draws order rejecting in
    ((first.0 ≡ returns "b1") ⊎ (first.0 ≡ raises broker_rejection))
    × (submit_order draws_again order first.1 ≡ (returns "b1", first.1))
submit_order_twice_example =
    submit_order_twice draws draws_again order rejecting (unfold new_broker in refl)
      (unfold new_broker in refl)

abbrev empty : Oms
empty = record { entries = []; broker_id_to_order = []; store = []; bus = [] }

abbrev instant : FakeBroker
instant = new_broker FillMode.instant cash

submit_through-fills_example :
    let (out, b') = submit_through "no" draws order 10 20 instant empty in
    (result : SubmitResult) × (status : BrokerOrderStatus) × (out.0 ≡ ok result)
    × (result.order.state ≡ filled)
    × (result.order.filled_qty ≡ order.qty)
    × (result.broker_order_id ≡ some "b1")
    × Keeps 1 filled out.1
    × (get_order "b1" b' ≡ returns status)
    × (status.state ≡ BrokerOrderState.filled)
    × (status.filled_qty ≡ order.qty)
submit_through-fills_example =
    submit_through-fills "no" draws order 10 20 instant empty (unfold new_broker in refl)
      (unfold new_broker in refl) (unfold new_broker in refl) refl refl refl refl
      (unfold is_mapped in refl)
