-- ===== src/FakeBroker/Books.antt =====
-- execution/fake_broker.py: FakeBroker's books over histories of calls.
use multi_agent_llm_trading.Prelude.{
  ℕ, ◌≡◌, refl, ap, String, Option, none, some, List, string_eq, nat_eq, Option-cases, inl, inr,
  arith,
}
use multi_agent_llm_trading.Prelude.Dict.{lookup}
use multi_agent_llm_trading.Prelude.Int.{ℤ}
use multi_agent_llm_trading.Types.{Order}
use multi_agent_llm_trading.Oms.Vocabulary.{BrokerOrderState, BrokerOrderEvent}
use multi_agent_llm_trading.FakeBroker.{
  FillMode, BrokerOrder, FakeBroker, emit, put_order, new_average, fill_of, filled_order,
  record_fill, new_broker,
}
use multi_agent_llm_trading.FakeBroker.Orders.{Draws, fills_in, fresh_order, enter_order}
use multi_agent_llm_trading.FakeBroker.Requests.{Request, serve_all, AllDrawFresh}
use multi_agent_llm_trading.FakeBroker.Histories.{Keeps, serve_all-keeps}
use multi_agent_llm_trading.FakeBroker.Fills.{total, total-push, total-insert_old, total-insert_new}
use multi_agent_llm_trading.FakeBroker.Ledger.{IsBalanced, same_books-IsBalanced, book-IsBalanced}

-- A write to the record of an order that leaves its fills alone.
put_order-IsBalanced :
    (k : String) (rec rec' : BrokerOrder) (b : FakeBroker)
    → lookup k b.orders ≡ some rec
    → rec'.fills ≡ rec.fills
    → IsBalanced b
    → IsBalanced (put_order k rec' b)
put_order-IsBalanced k rec rec' b known same h =
    same_books-IsBalanced b (put_order k rec' b) refl refl refl
      (λ weight.
        omega (arith, total-insert_old weight k rec rec' b.orders known, ap (total weight) same))
      h

emit-IsBalanced :
    (event : BrokerOrderEvent) (b : FakeBroker) → IsBalanced b → IsBalanced (emit event b)
emit-IsBalanced event b h = same_books-IsBalanced b (emit event b) refl refl refl (λ _. refl) h

enter_order-IsBalanced :
    (draws : Draws) (order : Order) (st : BrokerOrderState) (reason : Option String)
    (b : FakeBroker)
    → lookup draws.broker_id b.orders ≡ none
    → IsBalanced b
    → IsBalanced (enter_order draws order st reason b)
unfolding enter_order total
enter_order-IsBalanced draws order st reason b fresh h =
    same_books-IsBalanced b (enter_order draws order st reason b) refl refl refl
      (λ weight. omega (
        arith,
        total-insert_new weight draws.broker_id (fresh_order draws order st reason) b.orders fresh,
      ))
      h

record_fill-IsBalanced :
    (k : String) (id qty price now : ℕ) (rec : BrokerOrder) (b : FakeBroker)
    → lookup k b.orders ≡ some rec
    → IsBalanced b
    → IsBalanced (record_fill k id qty price now rec b).1
unfolding record_fill
record_fill-IsBalanced k id qty price now rec b known h =
    elim (Option-cases (new_average rec.status.avg_fill_price rec.status.filled_qty qty price)) [
      | inl e ↦ rw (record_fill, e) h
      | inr (avg, e) ↦
          let f = fill_of id qty price now rec in
          let rec' = filled_order avg id qty price now rec in
          let b' = (record_fill k id qty price now rec b).1 in
          book-IsBalanced f b b' (rw (record_fill, e) refl) (rw (record_fill, e) refl)
            (rw (record_fill, e) refl)
            (λ weight.
              rw (record_fill, e)
                (omega (
                  arith,
                  total-insert_old weight k rec rec' b.orders known,
                  total-push weight rec.fills f,
                )))
            h
    ]

Keeps-IsBalanced : Keeps IsBalanced
Keeps-IsBalanced = record {
  knobs = λ b b' positions cash start orders index h.
      same_books-IsBalanced b b' positions cash start
        (λ weight. ap (λ d. total weight (fills_in d)) orders) h;
  entered = λ draws order st reason b not_filled fresh new h.
      enter_order-IsBalanced draws order st reason b fresh h;
  restated =
      λ k rec st reason now b not_filled known h. put_order-IsBalanced k rec _ b known refl h;
  filled = λ k id qty price now rec b known fits h.
      record_fill-IsBalanced k id qty price now rec b known h;
}

-- After any history of submissions, cancellations, forced fills and rejections, in every fill mode
-- and with any injected failure, as long as every submission draws a broker id that no order has,
-- the broker's position in each symbol is what its fills bought less what they sold, and its cash
-- is the starting cash less what they spent and plus what they received.
pub serve_all-IsBalanced :
    (mode : FillMode) (cash : ℤ) (rs : List Request)
    → AllDrawFresh rs (new_broker mode cash)
    → IsBalanced (serve_all rs (new_broker mode cash))
unfolding new_broker total
serve_all-IsBalanced mode cash rs fresh =
    serve_all-keeps IsBalanced Keeps-IsBalanced rs (new_broker mode cash) fresh
      (record { held = λ symbol. refl; paid = omega arith })
