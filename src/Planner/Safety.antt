-- ===== src/Planner/Safety.antt =====
-- What a planned order may be: its side, its size and the gross it leaves.
use multi_agent_llm_trading.Prelude.{
  ℕ, ◌+◌, ◌*◌, ◌≤◌, ◌<◌, ◌≡◌, ◌≢◌, refl, sym, ◌∙◌, inl, inr, false, none, some, arith,
}
use multi_agent_llm_trading.Prelude.Int.{pos, ◌≤ℤ◌}
use multi_agent_llm_trading.Types.{
  Action, action_eq, OrderSide, order_side_eq, Intent, Order, AgentState, MarketSnapshot, unit,
  times_ℤ,
}
use multi_agent_llm_trading.Lots.{LotLedger}
use multi_agent_llm_trading.Planner.{
  Planner, PlanContext, Sized, planned, gross_of, size, guard_plan, position_value, qty_of, side_of,
  capped_qty, has_legs,
}
use multi_agent_llm_trading.Planner.Plan.{plan}
use multi_agent_llm_trading.Planner.Notional.{sleeve_gross_notional}
use multi_agent_llm_trading.Planner.Rounding.{qty_of-worth}
use multi_agent_llm_trading.Planner.Inversion.{
  price, IsSizedBy, sized_of-plan_open, plan_close-qty, plan-cases,
}

-- A purchase that passes the guards without legs: what it adds fits under the cap.
purchase_fits :
    (intent : Intent) (st : AgentState) (snap : MarketSnapshot) (l : LotLedger) (s : Sized) (q : ℕ)
    → has_legs intent ≡ false
    → intent.action ≢ Action.close
    → guard_plan intent st snap l s ≡ none
    → side_of intent s ≡ OrderSide.buy
    → (capped_qty intent s q ≡ q)
      × (pos (sleeve_gross_notional intent.agent_id snap l + position_value intent s)
          ≤ℤ s.gross_cap)
unfolding side_of capped_qty guard_plan
purchase_fits intent st snap l s q plain no_close passed buy = ground arith

size-cap :
    (emg : ℕ) (ctx : PlanContext) (intent : Intent) (st : AgentState) (snap : MarketSnapshot)
    (p : Planner)
    → (size emg ctx intent st snap p.ledger).gross_cap ≡ times_ℤ (pos emg) st.sleeve_equity
unfolding size
size-cap emg ctx intent st snap p = refl

module _ (ctx : PlanContext) (intent : Intent) (st : AgentState) (snap : MarketSnapshot)
    (p : Planner) where
  purchase_sized :
      (s : Sized) (mark : ℕ) (o : Order)
      → has_legs intent ≡ false
      → intent.action ≢ Action.close
      → o.side ≡ OrderSide.buy
      → IsSizedBy ctx intent st snap p s mark o
      → (0 < o.qty)
        × (2 * (o.qty * mark) ≤ 2 * (position_value intent s * unit) + mark)
        × (pos (sleeve_gross_notional intent.agent_id snap p.ledger + position_value intent s)
            ≤ℤ s.gross_cap)
  purchase_sized s mark o plain no_close buy (passed, some_qty, side, qty) =
      let value = position_value intent s in
      let (uncapped, fits) =
        purchase_fits intent st snap p.ledger s (qty_of (has_legs intent) value mark) plain no_close
          passed (sym side ∙ buy) in
      let same : o.qty ≡ qty_of false value mark = qty ∙ uncapped ∙ rw plain refl in
      let enough : 0 < qty_of false value mark = rw (sym plain) some_qty in
      (rw same enough, rw same (qty_of-worth value mark), fits)

  -- A planned purchase without legs is of something, at a mark at which it is worth `value` at
  -- most, up to half a unit of the mark, and the gross of the sleeve with that value is within its
  -- cap.
  pub plan-within_cap :
      (o : Order)
      → (plan ctx intent st snap p).0 ≡ planned o
      → has_legs intent ≡ false
      → o.side ≡ OrderSide.buy
      → (emg : ℕ) × (mark : ℕ) × (value : ℕ) × (gross_of ctx intent st snap ≡ some emg)
        × (price ctx intent st snap p ≡ some mark)
        × (0 < o.qty)
        × (2 * (o.qty * mark) ≤ 2 * (value * unit) + mark)
        × (pos (sleeve_gross_notional intent.agent_id snap p.ledger + value)
            ≤ℤ times_ℤ (pos emg) st.sleeve_equity)
  plan-within_cap o h plain buy = elim (plan-cases ctx intent st snap p o h) [
    | inl (exit, closed) ↦
        let (_, _, sell, _) = plan_close-qty ctx intent st snap p o closed in absurd (ground arith)
    | inr (no_exit, _, opened) ↦
        let (emg, mark, gross, at, sized) = sized_of-plan_open ctx intent st snap p o opened in
        let s = size emg ctx intent st snap p.ledger in
        let no_close : intent.action ≢ Action.close = λ e. ground arith in
        let (some_qty, worth, fits) = purchase_sized s mark o plain no_close buy sized in
        let cap = size-cap emg ctx intent st snap p in
        (emg, mark, position_value intent s, gross, at, some_qty, worth, rw (sym cap) fits)
  ]
