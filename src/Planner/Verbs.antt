-- ===== src/Planner/Verbs.antt =====
-- The side of an order by the verb of its intent, purchases in FORCED_CASH, and exits that are
-- filled.
use multi_agent_llm_trading.Prelude.{
  ℕ, ◌≡◌, ◌≢◌, refl, sym, ◌∙◌, inl, inr, true, false, none, arith,
}
use multi_agent_llm_trading.Prelude.Int.{pos, ◌≤ℤ◌, ◌<ℤ◌}
use multi_agent_llm_trading.Types.{
  Action, action_eq, OrderSide, order_side_eq, Intent, Order, Fill, AgentState, MarketSnapshot,
  DrawdownBucket, LotMethod, zero_times_ℤ,
}
use multi_agent_llm_trading.Lots.{total_open_qty, LotLedger, book_fill, member}
use multi_agent_llm_trading.Lots.Ledger.{IsKeyed}
use multi_agent_llm_trading.Lots.Booking.{book_fill-sell}
use multi_agent_llm_trading.Sizing.Bounds.{effective_max_gross_bounds}
use multi_agent_llm_trading.Risk.Policy.{is_closing}
use multi_agent_llm_trading.Planner.{
  Planner, PlanContext, Sized, planned, size, guard_plan, side_of, has_legs,
}
use multi_agent_llm_trading.Planner.Plan.{plan, is_exit}
use multi_agent_llm_trading.Planner.Inversion.{sized_of-plan_open, plan_close-qty, plan-cases}

-- With nothing to aim for, an order that passes the guards is a sale without legs.
cash_side :
    (intent : Intent) (st : AgentState) (snap : MarketSnapshot) (l : LotLedger) (s : Sized)
    → s.target_notional ≤ℤ pos 0
    → intent.action ≢ Action.close
    → guard_plan intent st snap l s ≡ none
    → side_of intent s ≡ OrderSide.sell
unfolding side_of guard_plan
cash_side intent st snap l s zero no_close passed = ground arith

size-cash :
    (ctx : PlanContext) (intent : Intent) (st : AgentState) (snap : MarketSnapshot) (p : Planner)
    → (size 0 ctx intent st snap p.ledger).target_notional ≤ℤ pos 0
unfolding size
size-cash ctx intent st snap p = let zero = zero_times_ℤ st.sleeve_equity in ground arith

-- Options have no position in the ledger, so their difference is never negative.
options_delta :
    (intent : Intent) (st : AgentState) (snap : MarketSnapshot) (l : LotLedger) (s : Sized)
    → intent.action ≡ Action.sell
    → has_legs intent ≡ true
    → s.current_notional ≡ 0
    → guard_plan intent st snap l s ≢ none
unfolding guard_plan
options_delta intent st snap l s sell legs none_held passed = ground arith

size-legs :
    (emg : ℕ) (ctx : PlanContext) (intent : Intent) (st : AgentState) (snap : MarketSnapshot)
    (p : Planner)
    → has_legs intent ≡ true
    → (size emg ctx intent st snap p.ledger).current_notional ≡ 0
unfolding size
size-legs emg ctx intent st snap p legs = rw legs refl

-- A SELL with legs, down to a weight above zero, is never planned.
pub options_sale-dropped :
    (ctx : PlanContext) (intent : Intent) (st : AgentState) (snap : MarketSnapshot) (p : Planner)
    → has_legs intent ≡ true
    → intent.action ≡ Action.sell
    → pos 0 <ℤ intent.target_weight
    → (o : Order) → (plan ctx intent st snap p).0 ≢ planned o
options_sale-dropped ctx intent st snap p legs sell some_weight o h =
    elim (plan-cases ctx intent st snap p o h) [
      | inl (exit, _) ↦ ground arith
      | inr (_, _, opened) ↦
          let (emg, mark, _, _, (passed, _, _, _)) =
            sized_of-plan_open ctx intent st snap p o opened in
          options_delta intent st snap p.ledger (size emg ctx intent st snap p.ledger) sell legs
            (size-legs emg ctx intent st snap p legs) passed
    ]

module _ (ctx : PlanContext) (intent : Intent) (st : AgentState) (snap : MarketSnapshot)
    (p : Planner) (o : Order) (h : (plan ctx intent st snap p).0 ≡ planned o) where
  -- A planned order of a BUY buys, one of a SELL or CLOSE sells.
  pub plan-side :
      (intent.action ≡ Action.buy → o.side ≡ OrderSide.buy)
      × (is_closing intent.action ≡ true → o.side ≡ OrderSide.sell)
  unfolding side_of
  plan-side = elim (plan-cases ctx intent st snap p o h) [
    | inl (exit, closed) ↦
        let (_, _, sell, _) = plan_close-qty ctx intent st snap p o closed in ground arith
    | inr (other, _, opened) ↦
        let (emg, mark, _, _, (_, _, side, _)) = sized_of-plan_open ctx intent st snap p o opened in
        ground arith
  ]

  -- In FORCED_CASH a planned order sells.
  pub forced_cash-sells : st.drawdown_bucket ≡ DrawdownBucket.forced_cash → o.side ≡ OrderSide.sell
  forced_cash-sells cash = elim (plan-cases ctx intent st snap p o h) [
    | inl (exit, closed) ↦ (plan_close-qty ctx intent st snap p o closed).2
    | inr (other, _, opened) ↦
        let (emg, mark, gross, _, (passed, _, side, _)) =
          sized_of-plan_open ctx intent st snap p o opened in
        let bounds =
          effective_max_gross_bounds ctx.sleeve_weights intent.agent_id ctx.master_capability
            snap.vix_bucket st.drawdown_bucket in
        let zero : emg ≡ 0 = (bounds.1 emg gross).1 cash in
        let nothing : (size emg ctx intent st snap p.ledger).target_notional ≤ℤ pos 0 =
          rw zero (size-cash ctx intent st snap p) in
        let no_close : intent.action ≢ Action.close = λ e. ground arith in
        side
        ∙ cash_side intent st snap p.ledger (size emg ctx intent st snap p.ledger) nothing no_close
            passed
  ]

  -- In a ledger with every lot under its own id, once: a new fill of the whole of an exit's order,
  -- when it is booked, leaves nothing of the position.
  pub exit-flat :
      is_exit intent ≡ true
      → (f : Fill) (method : LotMethod) (lot_id : ℕ) → IsKeyed p.ledger.lots
      → f.agent_id ≡ intent.agent_id
      → f.symbol ≡ o.symbol
      → f.side ≡ o.side
      → f.qty ≡ o.qty
      → member f.id p.ledger.booked ≡ false
      → total_open_qty intent.agent_id o.symbol (book_fill f method lot_id p.ledger) ≡ 0
  exit-flat exit f method lot_id keyed agent symbol side qty new =
      elim (plan-cases ctx intent st snap p o h) [
        | inl (_, closed) ↦
            let (_, all, sell, at) = plan_close-qty ctx intent st snap p o closed in
            let (_, _, sold) = book_fill-sell f method lot_id p.ledger keyed (side ∙ sell) new in
            let whole : total_open_qty f.agent_id f.symbol p.ledger ≡ f.qty =
              rw (agent, symbol, at) (sym (qty ∙ all)) in
            let (dust, left, _) = sold (omega arith) in
            let none_left : total_open_qty f.agent_id f.symbol (book_fill f method lot_id p.ledger)
                ≡ 0 =
              omega arith in
            rw (sym agent, sym symbol) none_left
        | inr (other, _, _) ↦ absurd (ground arith)
      ]
