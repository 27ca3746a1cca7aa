-- ===== src/Planner/Outcome.antt =====
-- What a call of `plan` leaves behind, and what the verb of an intent allows.
use multi_agent_llm_trading.Prelude.{
  ℕ, ◌+◌, ◌<◌, ◌≡◌, refl, inl, inr, ◌&&◌, Option, none, some, ltb, push, arith, ◌==◌, eqb,
  Bool-cases, Option-cases, if◌then◌else◌,
}
use multi_agent_llm_trading.Types.{
  Action, action_eq, order_side_eq, Intent, AgentState, MarketSnapshot, times, normalize_symbol,
}
use multi_agent_llm_trading.Lots.{total_open_qty}
use multi_agent_llm_trading.Sizing.{max_master_capability, effective_max_gross}
use multi_agent_llm_trading.Planner.{
  Planner, PlanContext, PlanResult, Sized, Reject, IntentSizedEvent, planned, dropped, raised,
  drop_intent, gross_of, size, guard_plan, no_mark, no_position, sub_min, zero_qty, qty_of,
  position_value, has_legs, min_notional,
}
use multi_agent_llm_trading.Planner.Plan.{
  plan, plan_close, plan_open, plan_sized, order_at, is_exit, emit_close,
}
use multi_agent_llm_trading.Planner.Notional.{usable_mark}

-- All the intents that were dropped.
abbrev pub drops : Planner → ℕ
drops p =
    p.dropped_no_mark + p.dropped_no_position + p.dropped_sub_min + p.dropped_zero_qty
    + p.dropped_near_target + p.dropped_already_at_target + p.dropped_sleeve_gross_breach

-- A planned order has published its one event; a drop has counted and published nothing; a raise
-- has left everything, and comes of a master capability above 1.5.
abbrev pub IsAccounted : PlanContext → Intent → Planner → PlanResult × Planner → Type 0
IsAccounted ctx intent p (planned o, p') =
    (e : IntentSizedEvent) × (p'.bus ≡ push p.bus e)
    × (e.intent_id ≡ intent.id)
    × (e.symbol ≡ o.symbol)
    × (e.qty ≡ o.qty)
    × (drops p' ≡ drops p)
    × (p'.ledger ≡ p.ledger)
IsAccounted ctx intent p (dropped reason, p') =
    (drops p' ≡ drops p + 1) × (p'.bus ≡ p.bus) × (p'.ledger ≡ p.ledger)
IsAccounted ctx intent p (raised, p') = (p' ≡ p) × (max_master_capability < ctx.master_capability)

drop_intent-IsAccounted :
    (ctx : PlanContext) (intent : Intent) (p : Planner) (reason : Reject)
    → IsAccounted ctx intent p (drop_intent reason p)
drop_intent-IsAccounted ctx intent p reason = ground arith

module _ (ctx : PlanContext) (intent : Intent) (st : AgentState) (snap : MarketSnapshot)
    (p : Planner) where
  no_gross : gross_of ctx intent st snap ≡ none → max_master_capability < ctx.master_capability
  unfolding effective_max_gross
  no_gross h = ground arith

  order_at-IsAccounted :
      (s : Sized) (mark : Option ℕ) → IsAccounted ctx intent p (order_at ctx intent s mark p)
  unfolding order_at
  order_at-IsAccounted s none = drop_intent-IsAccounted ctx intent p no_mark
  order_at-IsAccounted s (some mark) =
      elim (Bool-cases (eqb (qty_of (has_legs intent) (position_value intent s) mark) 0)) [
        | inl nothing ↦ rw nothing (drop_intent-IsAccounted ctx intent p zero_qty)
        | inr some_qty ↦ rw some_qty (_, refl, refl, refl, refl, refl, refl)
      ]

  plan_sized-IsAccounted :
      (s : Sized) → IsAccounted ctx intent p (plan_sized ctx intent st snap s p)
  unfolding plan_sized
  plan_sized-IsAccounted s = elim (Option-cases (guard_plan intent st snap p.ledger s)) [
    | inl passed ↦
        rw (plan_sized, passed)
          (order_at-IsAccounted s
            (usable_mark (snap.current_prices (normalize_symbol intent.symbol))))
    | inr (reason, e) ↦ rw (plan_sized, e) (drop_intent-IsAccounted ctx intent p reason)
  ]

  plan_open-IsAccounted : IsAccounted ctx intent p (plan_open ctx intent st snap p)
  unfolding plan_open
  plan_open-IsAccounted = elim (Option-cases (gross_of ctx intent st snap)) [
    | inl none' ↦ rw (plan_open, none') (refl, no_gross none')
    | inr (emg, e) ↦
        rw (plan_open, e) (plan_sized-IsAccounted (size emg ctx intent st snap p.ledger))
  ]

  abbrev held_qty : ℕ
  held_qty = total_open_qty intent.agent_id (normalize_symbol intent.symbol) p.ledger

  close_at-IsAccounted :
      (notional : ℕ)
      → IsAccounted ctx intent p (
          if ltb notional min_notional
          then drop_intent sub_min p
          else elim (gross_of ctx intent st snap) [
            | none ↦ (raised, p)
            | some emg ↦ emit_close emg ctx intent held_qty notional p
          ])
  close_at-IsAccounted notional = elim (Bool-cases (ltb notional min_notional)) [
    | inl small ↦ rw small (drop_intent-IsAccounted ctx intent p sub_min)
    | inr enough ↦ elim (Option-cases (gross_of ctx intent st snap)) [
      | inl none' ↦ rw (enough, none') (refl, no_gross none')
      | inr (emg, e) ↦ rw (enough, e) (_, refl, refl, refl, refl, refl, refl)
    ]
  ]

  plan_close-IsAccounted : IsAccounted ctx intent p (plan_close ctx intent st snap p)
  unfolding plan_close
  plan_close-IsAccounted = elim (Bool-cases (eqb held_qty 0)) [
    | inl nothing ↦ rw nothing (drop_intent-IsAccounted ctx intent p no_position)
    | inr some_qty ↦
        elim (Option-cases (usable_mark (snap.current_prices (normalize_symbol intent.symbol)))) [
          | inl none' ↦ rw (some_qty, none') (drop_intent-IsAccounted ctx intent p no_mark)
          | inr (mark, e) ↦ rw (some_qty, e) (close_at-IsAccounted (times held_qty mark))
        ]
  ]

  -- Every call of plan ends in one of three ways: with an order, whose one event it has published;
  -- with a drop, which it has counted once, publishing nothing; or with the ValueError of a master
  -- capability above 1.5, the planner as it was. The ledger stays in each.
  pub plan-IsAccounted : IsAccounted ctx intent p (plan ctx intent st snap p)
  unfolding plan
  plan-IsAccounted = elim (Bool-cases (is_exit intent)) [
    | inl exit ↦ rw exit plan_close-IsAccounted
    | inr other ↦ elim (Bool-cases (intent.action == Action.sell && eqb held_qty 0)) [
      | inl nothing ↦ rw (other, nothing) (drop_intent-IsAccounted ctx intent p no_position)
      | inr some_qty ↦ rw (other, some_qty) plan_open-IsAccounted
    ]
  ]
