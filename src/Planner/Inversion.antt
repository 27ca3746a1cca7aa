-- ===== src/Planner/Inversion.antt =====
-- What a planned order of `plan` was computed from.
use multi_agent_llm_trading.Prelude.{
  ℕ, ◌≡◌, ◌⊎◌, refl, inl, inr, true, false, Option, none, some, arith, Bool-cases, Option-cases,
  ◌<◌,
}
use multi_agent_llm_trading.Types.{
  Action, action_eq, OrderSide, Intent, Order, AgentState, MarketSnapshot, normalize_symbol,
}
use multi_agent_llm_trading.Lots.{total_open_qty}
use multi_agent_llm_trading.Planner.{
  Planner, PlanContext, Sized, planned, gross_of, size, guard_plan, position_value, qty_of, side_of,
  capped_qty, has_legs,
}
use multi_agent_llm_trading.Planner.Plan.{
  plan, plan_close, plan_open, plan_sized, order_at, is_exit,
}
use multi_agent_llm_trading.Planner.Notional.{usable_mark}

module _ (ctx : PlanContext) (intent : Intent) (st : AgentState) (snap : MarketSnapshot)
    (p : Planner) where
  abbrev pub held : ℕ
  held = total_open_qty intent.agent_id (normalize_symbol intent.symbol) p.ledger

  abbrev pub price : Option ℕ
  price = usable_mark (snap.current_prices (normalize_symbol intent.symbol))

  -- An order that was sized by `s` at a mark.
  abbrev pub IsSizedBy : Sized → ℕ → Order → Type 0
  IsSizedBy s mark o =
      (guard_plan intent st snap p.ledger s ≡ none)
      × (0 < qty_of (has_legs intent) (position_value intent s) mark)
      × (o.side ≡ side_of intent s)
      × (o.qty ≡ capped_qty intent s (qty_of (has_legs intent) (position_value intent s) mark))

  sized_of-order_at :
      (s : Sized) (m : Option ℕ) (o : Order)
      → guard_plan intent st snap p.ledger s ≡ none
      → (order_at ctx intent s m p).0 ≡ planned o
      → (mark : ℕ) × (m ≡ some mark) × IsSizedBy s mark o
  unfolding order_at
  sized_of-order_at s none o g h = ground arith
  sized_of-order_at s (some mark) o g h = (mark, refl, ground arith)

  sized_of-plan_sized :
      (s : Sized) (o : Order)
      → (plan_sized ctx intent st snap s p).0 ≡ planned o
      → (mark : ℕ) × (price ≡ some mark) × IsSizedBy s mark o
  unfolding plan_sized
  sized_of-plan_sized s o h = elim (Option-cases (guard_plan intent st snap p.ledger s)) [
    | inl none' ↦ sized_of-order_at s price o none' (ground arith)
    | inr (reason, e) ↦ absurd (ground arith)
  ]

  -- An order of `plan_open` was sized at the gross cap and the mark.
  pub sized_of-plan_open :
      (o : Order)
      → (plan_open ctx intent st snap p).0 ≡ planned o
      → (emg : ℕ) × (mark : ℕ) × (gross_of ctx intent st snap ≡ some emg)
        × (price ≡ some mark)
        × IsSizedBy (size emg ctx intent st snap p.ledger) mark o
  unfolding plan_open
  sized_of-plan_open o h = elim (Option-cases (gross_of ctx intent st snap)) [
    | inl over_limit ↦ absurd (ground arith)
    | inr (emg, e) ↦
        let s = size emg ctx intent st snap p.ledger in
        let (mark, at, sized) = sized_of-plan_sized s o (ground arith) in (emg, mark, e, at, sized)
  ]

  -- An order of an exit is a sale of all that is held.
  pub plan_close-qty :
      (o : Order)
      → (plan_close ctx intent st snap p).0 ≡ planned o
      → (0 < held)
        × (o.qty ≡ held)
        × (o.side ≡ OrderSide.sell)
        × (o.symbol ≡ normalize_symbol intent.symbol)
  unfolding plan_close
  plan_close-qty o h = ground arith

  -- A planned order is of an exit or was sized.
  pub plan-cases :
      (o : Order)
      → (plan ctx intent st snap p).0 ≡ planned o
      → ((is_exit intent ≡ true) × ((plan_close ctx intent st snap p).0 ≡ planned o))
        ⊎ ((is_exit intent ≡ false)
            × (intent.action ≡ Action.sell → 0 < held)
            × ((plan_open ctx intent st snap p).0 ≡ planned o))
  unfolding plan
  plan-cases o h = elim (Bool-cases (is_exit intent)) [
    | inl exit ↦ inl (exit, ground arith)
    | inr other ↦ inr (other, λ sell. ground arith, ground arith)
  ]
