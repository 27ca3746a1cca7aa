-- ===== src/FakeBroker/Index.antt =====
-- execution/fake_broker.py: the orders of FakeBroker, their fills and the index by client id.
use multi_agent_llm_trading.Prelude.{
  ℕ, ◌+◌, ◌≤◌, ◌≡◌, ◌≢◌, ◌⊎◌, refl, sym, ap, String, Option, none, some, List, string_eq, nat_eq,
  ◌==◌, Bool-cases, Option-cases, inl, inr, eq_of_beq, ne_of_beq, ◌∙◌, arith,
}
use multi_agent_llm_trading.Prelude.Int.{ℤ}
use multi_agent_llm_trading.Prelude.Dict.{lookup, insert, lookup-insert_self, lookup-insert_ne}
use multi_agent_llm_trading.Types.{Order}
use multi_agent_llm_trading.Oms.Vocabulary.{BrokerOrderState, BrokerOrderStatus}
use multi_agent_llm_trading.FakeBroker.{
  FillMode, BrokerOrder, FakeBroker, returns, put_order, new_average, fill_of, filled_order,
  apply_fill_to_account, record_fill, new_broker,
}
use multi_agent_llm_trading.FakeBroker.Orders.{
  Draws, fresh_order, enter_order, with_state, get_order, find_order_by_client_id,
}
use multi_agent_llm_trading.FakeBroker.Requests.{Request, serve_all, AllDrawFresh}
use multi_agent_llm_trading.FakeBroker.Fills.{total, total-push}
use multi_agent_llm_trading.FakeBroker.Histories.{Keeps, serve_all-keeps}

-- The filled quantity is that of the fills, within the order's, and all of it once FILLED.
pub record IsFilledRight (rec : BrokerOrder) : Type 0 where
  pub summed : total (λ f. f.qty) rec.fills ≡ rec.status.filled_qty
  pub within : rec.status.filled_qty ≤ rec.status.qty
  pub complete : rec.status.state ≡ BrokerOrderState.filled → rec.status.filled_qty ≡ rec.status.qty

-- A client id leads to an order that carries it.
abbrev pub LeadsTo : FakeBroker → ℕ → String → Type 0
LeadsTo b client_id k =
    (rec : BrokerOrder) × (lookup k b.orders ≡ some rec)
    × (rec.status.client_order_id ≡ client_id)
    × (rec.status.broker_order_id ≡ k)

pub record IsIndexed (b : FakeBroker) : Type 0 where
  pub right : (k : String) (rec : BrokerOrder) → lookup k b.orders ≡ some rec → IsFilledRight rec
  pub found :
      (client_id : ℕ) (k : String)
      → lookup client_id b.client_to_broker ≡ some k
      → LeadsTo b client_id k

-- A write of a record under `k` that carries the ids of the one that was there.
module _ (k : String) (rec rec' : BrokerOrder) (b : FakeBroker)
    (known : lookup k b.orders ≡ some rec)
    (client : rec'.status.client_order_id ≡ rec.status.client_order_id)
    (broker : rec'.status.broker_order_id ≡ rec.status.broker_order_id) where
  rewrite-LeadsTo :
      (client_id : ℕ) (j : String)
      → LeadsTo b client_id j
      → LeadsTo (put_order k rec' b) client_id j
  rewrite-LeadsTo client_id j (r, at, c, i) = elim (Bool-cases (j == k)) [
    | inl e ↦
        let same : j ≡ k = eq_of_beq j k e in
        let one : some r ≡ some rec = cc (at, known, ap (λ x. lookup x b.orders) same) in
        (rec', rw same (lookup-insert_self k rec' b.orders), ground arith, ground arith)
    | inr e ↦ (r, lookup-insert_ne j k rec' b.orders (ne_of_beq j k e) ∙ at, c, i)
  ]

record_fill-right :
    (id qty price now avg : ℕ) (rec : BrokerOrder)
    → IsFilledRight rec
    → rec.status.filled_qty + qty ≤ rec.status.qty
    → IsFilledRight (filled_order avg id qty price now rec)
record_fill-right id qty price now avg rec h fits = record {
  summed =
      omega (arith, total-push (λ f. f.qty) rec.fills (fill_of id qty price now rec), h.summed);
  within = fits;
  complete = λ full. ground arith;
}

with_state-right :
    (st : BrokerOrderState) (reason : Option String) (now : ℕ) (rec : BrokerOrder)
    → st ≢ BrokerOrderState.filled
    → IsFilledRight rec
    → IsFilledRight (with_state st reason now rec)
with_state-right st reason now rec other h = record {
  summed = h.summed;
  within = h.within;
  complete = λ full. absurd (other full);
}

fresh_order-right :
    (draws : Draws) (order : Order) (st : BrokerOrderState) (reason : Option String)
    → st ≢ BrokerOrderState.filled
    → IsFilledRight (fresh_order draws order st reason)
unfolding total
fresh_order-right draws order st reason other = record {
  summed = refl;
  within = omega arith;
  complete = λ full. absurd (other full);
}

-- A write of a record that is right.
put-right :
    (k : String) (rec' : BrokerOrder) (b : FakeBroker)
    → IsFilledRight rec'
    → ((j : String) (rec : BrokerOrder) → lookup j b.orders ≡ some rec → IsFilledRight rec)
    → (j : String) (rec : BrokerOrder) → lookup j (insert k rec' b.orders) ≡ some rec
    → IsFilledRight rec
put-right k rec' b good h j rec at = elim (Bool-cases (j == k)) [
  | inl e ↦
      let same : j ≡ k = eq_of_beq j k e in
      let one : some rec' ≡ some rec =
        sym (lookup-insert_self k rec' b.orders)
        ∙ ap (λ x. lookup x (insert k rec' b.orders)) (sym same)
        ∙ at in
      let one' : rec' ≡ rec = cc one in rw (← one') good
  | inr e ↦ h j rec (sym (lookup-insert_ne j k rec' b.orders (ne_of_beq j k e)) ∙ at)
]

record_fill-IsIndexed :
    (k : String) (id qty price now : ℕ) (rec : BrokerOrder) (b : FakeBroker)
    → lookup k b.orders ≡ some rec
    → rec.status.filled_qty + qty ≤ rec.status.qty
    → IsIndexed b
    → IsIndexed (record_fill k id qty price now rec b).1
unfolding record_fill apply_fill_to_account
record_fill-IsIndexed k id qty price now rec b known fits h =
    elim (Option-cases (new_average rec.status.avg_fill_price rec.status.filled_qty qty price)) [
      | inl e ↦ rw (record_fill, e) h
      | inr (avg, e) ↦
          let rec' = filled_order avg id qty price now rec in
          rw (record_fill, e)
            (record {
              right =
                  put-right k rec' b
                    (record_fill-right id qty price now avg rec (h.right k rec known) fits) h.right;
              found = λ client_id j at.
                  rewrite-LeadsTo k rec rec' b known refl refl client_id j (h.found client_id j at);
            })
    ]

enter_order-found :
    (draws : Draws) (order : Order) (st : BrokerOrderState) (reason : Option String)
    (b : FakeBroker)
    → lookup draws.broker_id b.orders ≡ none
    → IsIndexed b
    → (client_id : ℕ) (j : String)
    → lookup client_id (enter_order draws order st reason b).client_to_broker ≡ some j
    → LeadsTo (enter_order draws order st reason b) client_id j
unfolding enter_order
enter_order-found draws order st reason b fresh h client_id j at =
    let k = draws.broker_id in
    let rec = fresh_order draws order st reason in
    elim (Bool-cases (client_id == order.id)) [
      | inl e ↦
          let same : client_id ≡ order.id = eq_of_beq client_id order.id e in
          let one : some k ≡ some j =
            sym (lookup-insert_self order.id k b.client_to_broker)
            ∙ ap (λ x. lookup x (insert order.id k b.client_to_broker)) (sym same)
            ∙ at in
          let one' : k ≡ j = cc one in
          (rec, rw (← one') (lookup-insert_self k rec b.orders), sym same, one')
      | inr e ↦
          let old = h.found client_id j (
            sym (
              lookup-insert_ne client_id order.id k b.client_to_broker
                (ne_of_beq client_id order.id e))
            ∙ at) in
          let other : j ≢ k = λ same. cc (fresh, old.1, ap (λ x. lookup x b.orders) same) in
          (old.0, lookup-insert_ne j k rec b.orders other ∙ old.1, old.2, old.3)
    ]

Keeps-IsIndexed : Keeps IsIndexed
unfolding enter_order
Keeps-IsIndexed = record {
  knobs = λ b b' positions cash start orders index h. record {
    right = λ k rec at. h.right k rec (ap (lookup k) (sym orders) ∙ at);
    found = λ client_id k at.
        let old = h.found client_id k (ap (lookup client_id) (sym index) ∙ at) in
        (old.0, ap (lookup k) orders ∙ old.1, old.2, old.3);
  };
  entered = λ draws order st reason b not_filled fresh new h. record {
    right =
        put-right draws.broker_id (fresh_order draws order st reason) b
          (fresh_order-right draws order st reason not_filled) h.right;
    found = enter_order-found draws order st reason b fresh h;
  };
  restated = λ k rec st reason now b not_filled known h. record {
    right =
        put-right k (with_state st reason now rec) b
          (with_state-right st reason now rec not_filled (h.right k rec known)) h.right;
    found = λ client_id j at.
        rewrite-LeadsTo k rec (with_state st reason now rec) b known refl refl client_id j
          (h.found client_id j at);
  };
  filled = λ k id qty price now rec b known fits h.
      record_fill-IsIndexed k id qty price now rec b known fits h;
}

get_order-found :
    (k : String) (rec : BrokerOrder) (b : FakeBroker)
    → lookup k b.orders ≡ some rec
    → rec.status.broker_order_id ≡ k
    → get_order rec.status.broker_order_id b ≡ returns rec.status
unfolding get_order
get_order-found k rec b at broker = rw (get_order, ap (λ x. lookup x b.orders) broker ∙ at)

module _ (mode : FillMode) (cash : ℤ) (rs : List Request)
    (fresh : AllDrawFresh rs (new_broker mode cash)) where
  history-IsIndexed : IsIndexed (serve_all rs (new_broker mode cash))
  unfolding new_broker
  history-IsIndexed =
      serve_all-keeps IsIndexed Keeps-IsIndexed rs (new_broker mode cash) fresh (record {
        right = λ k rec at. absurd (ground arith);
        found = λ client_id k at. absurd (ground arith);
      })

  -- After any history whose submissions draw fresh broker ids, every order of the broker has
  -- exactly the filled quantity that its fills sum to, that quantity is within the order's, and an
  -- order that is FILLED has all of it.
  pub serve_all-IsFilledRight :
      (k : String) (rec : BrokerOrder)
      → lookup k (serve_all rs (new_broker mode cash)).orders ≡ some rec
      → IsFilledRight rec
  serve_all-IsFilledRight = history-IsIndexed.right

  -- After any history whose submissions draw fresh broker ids, a search by client id never raises:
  -- it finds nothing if the client id is not known, and else an order that carries that client id
  -- and that `get_order` returns for the broker id of its own.
  pub find_order-get_order :
      (client_id : ℕ)
      → let b = serve_all rs (new_broker mode cash) in
        (find_order_by_client_id client_id b ≡ returns none)
        ⊎ ((status : BrokerOrderStatus) × (find_order_by_client_id client_id b
              ≡ returns (some status))
            × (status.client_order_id ≡ client_id)
            × (get_order status.broker_order_id b ≡ returns status))
  unfolding find_order_by_client_id
  find_order-get_order client_id =
      let b = serve_all rs (new_broker mode cash) in
      elim (Option-cases (lookup client_id b.client_to_broker)) [
        | inl e ↦ inl (rw (find_order_by_client_id, e) refl)
        | inr (k, e) ↦
            let (rec, at, client, broker) = history-IsIndexed.found client_id k e in
            inr (
              rec.status,
              rw (find_order_by_client_id, e, at) refl,
              client,
              get_order-found k rec b at broker,
            )
      ]
