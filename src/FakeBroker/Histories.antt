-- ===== src/FakeBroker/Histories.antt =====
-- execution/fake_broker.py: induction over histories of calls, by the four changes that the calls
-- of FakeBroker make.
use multi_agent_llm_trading.Prelude.{
  ℕ, ◌+◌, ◌-◌, ◌≤◌, ◌≡◌, ◌≢◌, refl, ap, String, Bool, true, false, Option, none, some, List, [],
  ◌∷◌, string_eq, nat_eq, leb, ltb, if◌then◌else◌, Bool-cases, Option-cases, inl, inr, arith,
}
use multi_agent_llm_trading.Prelude.Dict.{lookup, lookup-insert_self}
use multi_agent_llm_trading.Types.{Order, div_half_even}
use multi_agent_llm_trading.Oms.Vocabulary.{BrokerOrderState}
use multi_agent_llm_trading.FakeBroker.{
  FillMode, BrokerOrder, FakeBroker, Call, returns, raises, value_error, put_order, record_fill,
  price_for,
}
use multi_agent_llm_trading.FakeBroker.Orders.{
  Draws, fresh_order, enter_order, take_order, fill_new, submit_order, cancel_order, with_state,
  then_returns, with_client_order, force_full_fill, force_partial_fill, force_reject, is_over,
}
use multi_agent_llm_trading.FakeBroker.Requests.{
  Request, serve, serve_all, DrawsFresh, AllDrawFresh,
}

-- A predicate is kept by a change of settings, by the entry of a new order, by a change of an
-- order's state to another than FILLED, and by a fill that fits the order.
pub record Keeps (P : FakeBroker → Type 0) : Type 0 where
  pub knobs :
      (b b' : FakeBroker)
      → b'.positions ≡ b.positions
      → b'.cash ≡ b.cash
      → b'.starting_cash ≡ b.starting_cash
      → b'.orders ≡ b.orders
      → b'.client_to_broker ≡ b.client_to_broker
      → P b
      → P b'
  pub entered :
      (draws : Draws) (order : Order) (st : BrokerOrderState) (reason : Option String)
      (b : FakeBroker)
      → st ≢ BrokerOrderState.filled
      → lookup draws.broker_id b.orders ≡ none
      → lookup order.id b.client_to_broker ≡ none
      → P b
      → P (enter_order draws order st reason b)
  pub restated :
      (k : String) (rec : BrokerOrder) (st : BrokerOrderState) (reason : Option String) (now : ℕ)
      (b : FakeBroker)
      → st ≢ BrokerOrderState.filled
      → lookup k b.orders ≡ some rec
      → P b
      → P (put_order k (with_state st reason now rec) b)
  pub filled :
      (k : String) (id qty price now : ℕ) (rec : BrokerOrder) (b : FakeBroker)
      → lookup k b.orders ≡ some rec
      → rec.status.filled_qty + qty ≤ rec.status.qty
      → P b
      → P (record_fill k id qty price now rec b).1

half-le : (n : ℕ) → div_half_even n 2 ≤ n
unfolding div_half_even
half-le n = ground arith

full_fits : (q f : ℕ) → leb q f ≡ false → f + (q - f) ≤ q
full_fits q f h = ground arith

part_fits : (q f : ℕ) → ltb q f ≡ false → f ≤ q
part_fits q f h = ground arith

module _ (P : FakeBroker → Type 0) (kept : Keeps P) where
  setting :
      (b b' : FakeBroker)
      → b' ≡ record b {
        fill_mode = b'.fill_mode;
        prices = b'.prices;
        callback = b'.callback;
        raise_on_next_submit = b'.raise_on_next_submit;
        raise_on_next_cancel = b'.raise_on_next_cancel;
      }
      → P b
      → P b'
  setting b b' e h =
      kept.knobs b b' (ap (λ x. x.positions) e) (ap (λ x. x.cash) e) (ap (λ x. x.starting_cash) e)
        (ap (λ x. x.orders) e) (ap (λ x. x.client_to_broker) e) h

  then_returns-keeps : {A B : Type 0} (x : B) (c : Call A) → P c.1 → P (then_returns x c).1
  then_returns-keeps x (returns _, b) h = h
  then_returns-keeps x (raises _, b) h = h

  if-keeps :
      (t : Bool) (c d : Call (Unit {0})) → P c.1 → (t ≡ false → P d.1) → P (if t then c else d).1
  if-keeps true c d hc hd = hc
  if-keeps false c d hc hd = hd refl

  module _ (draws : Draws) (order : Order) (b : FakeBroker)
      (fresh : lookup draws.broker_id b.orders ≡ none)
      (new : lookup order.id b.client_to_broker ≡ none) (h : P b) where
    accepted_kept : P (enter_order draws order BrokerOrderState.accepted none b)
    accepted_kept = kept.entered draws order BrokerOrderState.accepted none b (λ e. cc) fresh new h

    fill_new-keeps :
        (qty : ℕ)
        → qty ≤ order.qty
        → P (fill_new draws order qty (enter_order draws order BrokerOrderState.accepted none b)).1
    unfolding enter_order
    fill_new-keeps qty fits =
        let rec = fresh_order draws order BrokerOrderState.accepted none in
        let entered = enter_order draws order BrokerOrderState.accepted none b in
        let price = price_for order.symbol order.limit_price entered in
        then_returns-keeps draws.broker_id
          (record_fill draws.broker_id draws.fill_id qty price draws.filled_at rec entered)
          (kept.filled draws.broker_id draws.fill_id qty price draws.filled_at rec entered
            (lookup-insert_self draws.broker_id rec b.orders) (omega arith) accepted_kept)

    take_order-keeps : (mode : FillMode) → P (take_order mode draws order b).1
    take_order-keeps FillMode.instant = fill_new-keeps order.qty (omega arith)
    take_order-keeps FillMode.manual = accepted_kept
    take_order-keeps FillMode.reject =
        kept.entered draws order BrokerOrderState.rejected _ b (λ e. cc) fresh new h
    take_order-keeps FillMode.partial_then_hold =
        fill_new-keeps (div_half_even order.qty 2) (half-le order.qty)

  submit_order-keeps :
      (draws : Draws) (order : Order) (b : FakeBroker)
      → lookup draws.broker_id b.orders ≡ none
      → P b
      → P (submit_order draws order b).1
  unfolding submit_order
  submit_order-keeps draws order b fresh h = elim (Option-cases b.raise_on_next_submit) [
    | inr (error, e) ↦ rw (submit_order, e) (setting b _ refl h)
    | inl e ↦ elim (Option-cases (lookup order.id b.client_to_broker)) [
      | inr (existing, e') ↦ rw (submit_order, e, e') h
      | inl e' ↦ rw (submit_order, e, e') (take_order-keeps draws order b fresh e' h b.fill_mode)
    ]
  ]

  cancel_order-keeps : (k : String) (now : ℕ) (b : FakeBroker) → P b → P (cancel_order k now b).1
  unfolding cancel_order
  cancel_order-keeps k now b h = elim (Option-cases b.raise_on_next_cancel) [
    | inr (error, e) ↦ rw (cancel_order, e) (setting b _ refl h)
    | inl e ↦ elim (Option-cases (lookup k b.orders)) [
      | inl e' ↦ rw (cancel_order, e, e') h
      | inr (rec, e') ↦ elim (Bool-cases (is_over rec.status.state)) [
        | inl over ↦ rw (cancel_order, e, e', over) h
        | inr live ↦
            rw (cancel_order, e, e', live)
              (setting _ _ refl (
                kept.restated k rec BrokerOrderState.canceled rec.status.rejection_reason now b
                  (λ e. cc) e' h))
      ]
    ]
  ]

  -- The three forcing calls keep what their bodies keep.
  with_client_order-keeps :
      (client_id : ℕ) (f : String → BrokerOrder → Call (Unit {0})) (b : FakeBroker)
      → ((k : String) (rec : BrokerOrder) → lookup k b.orders ≡ some rec → P (f k rec).1)
      → P b
      → P (with_client_order client_id f b).1
  with_client_order-keeps client_id f b body h =
      elim (Option-cases (lookup client_id b.client_to_broker)) [
        | inl e ↦ rw (with_client_order, e) h
        | inr (k, e) ↦ elim (Option-cases (lookup k b.orders)) [
          | inl e' ↦ rw (with_client_order, e, e') h
          | inr (rec, e') ↦ rw (with_client_order, e, e') (body k rec e')
        ]
      ]

  serve-keeps : (r : Request) (b : FakeBroker) → DrawsFresh r b → P b → P (serve r b)
  unfolding serve force_full_fill force_partial_fill force_reject
  serve-keeps (Request.submit draws order) b fresh h = submit_order-keeps draws order b fresh h
  serve-keeps (Request.cancel k now) b fresh h = cancel_order-keeps k now b h
  serve-keeps (Request.full_fill client_id price fill_id now) b fresh h =
      with_client_order-keeps client_id _ b
        (λ k rec e.
          if-keeps (leb rec.status.qty rec.status.filled_qty) (returns tt, b) _ h
            (λ more.
              kept.filled k fill_id (rec.status.qty - rec.status.filled_qty) _ now rec b e
                (full_fits rec.status.qty rec.status.filled_qty more) h))
        h
  serve-keeps (Request.partial_fill client_id qty price fill_id now) b fresh h =
      with_client_order-keeps client_id _ b
        (λ k rec e.
          if-keeps (ltb rec.status.qty (rec.status.filled_qty + qty)) (raises value_error, b) _ h
            (λ fits.
              kept.filled k fill_id qty _ now rec b e
                (part_fits rec.status.qty (rec.status.filled_qty + qty) fits) h))
        h
  serve-keeps (Request.reject client_id reason now) b fresh h =
      with_client_order-keeps client_id _ b
        (λ k rec e.
          setting _ _ refl
            (kept.restated k rec BrokerOrderState.rejected (some reason) now b (λ e. cc) e h))
        h
  serve-keeps (Request.mode m) b fresh h = setting b _ refl h
  serve-keeps (Request.quote symbol p) b fresh h = setting b _ refl h
  serve-keeps (Request.submit_failure error) b fresh h = setting b _ refl h
  serve-keeps (Request.cancel_failure error) b fresh h = setting b _ refl h
  serve-keeps Request.callback b fresh h = setting b _ refl h

  pub serve_all-keeps :
      (rs : List Request) (b : FakeBroker) → AllDrawFresh rs b → P b → P (serve_all rs b)
  unfolding serve_all
  serve_all-keeps [] b fresh h = h
  serve_all-keeps (r ∷ rs) b fresh h =
      serve_all-keeps rs (serve r b) fresh.1 (serve-keeps r b fresh.0 h)
