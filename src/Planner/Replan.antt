-- ===== src/Planner/Replan.antt =====
-- An intent that is planned again once its purchase is filled and booked.
use multi_agent_llm_trading.Prelude.{
  ℕ, ◌+◌, ◌-◌, ◌*◌, ◌≤◌, ◌<◌, ◌≡◌, ◌≢◌, refl, sym, ap, ◌∙◌, inl, inr, true, false, Option, none,
  some, arith, ◌==◌, beq_refl, beq_ne, nat_eq, string_eq, Option-cases,
}
use multi_agent_llm_trading.Prelude.Int.{pos, pos_part, ◌≤ℤ◌, ◌<ℤ◌}
use multi_agent_llm_trading.Prelude.Dict.{lookup}
use multi_agent_llm_trading.Types.{
  agent_id_eq, Action, action_eq, OrderSide, order_side_eq, Intent, Order, Fill, AgentState,
  MarketSnapshot, LotMethod, unit, over, times, normalize_symbol,
}
use multi_agent_llm_trading.Lots.{total_open_qty, LotLedger, book_fill, member}
use multi_agent_llm_trading.Lots.Booking.{book_fill-buy}
use multi_agent_llm_trading.Planner.{
  Planner, PlanContext, Reject, Sized, planned, dropped, drop_intent, gross_of, size, guard_plan,
  side_of, has_legs, delta_notional, abs_ℤ, position_value, capped_qty, qty_of, qty_step,
  rebalance_band_pct,
}
use multi_agent_llm_trading.Planner.Plan.{plan, plan_open, plan_sized, is_exit}
use multi_agent_llm_trading.Planner.Notional.{usable_mark}
use multi_agent_llm_trading.Planner.Rounding.{filled-near, near-in_band}
use multi_agent_llm_trading.Planner.Inversion.{
  held, price, IsSizedBy, sized_of-plan_open, plan_close-qty, plan-cases,
}

usable_mark-positive : (price : Option ℕ) (mark : ℕ) → usable_mark price ≡ some mark → 0 < mark
usable_mark-positive none mark h = ground arith
usable_mark-positive (some m) mark h = ground arith

drop_intent-dropped : (reason : Reject) (p : Planner) → (drop_intent reason p).0 ≡ dropped reason
drop_intent-dropped reason p = ground arith

not_passed :
    (intent : Intent) (st : AgentState) (snap : MarketSnapshot) (l : LotLedger) (s : Sized)
    → pos 0 <ℤ st.sleeve_equity
    → over (abs_ℤ (delta_notional s)) (pos_part st.sleeve_equity) < rebalance_band_pct
    → guard_plan intent st snap l s ≢ none
unfolding guard_plan
not_passed intent st snap l s rich near passed = ground arith

-- A difference within the band is dropped, whatever the verb.
guard-in_band :
    (intent : Intent) (st : AgentState) (snap : MarketSnapshot) (l : LotLedger) (s : Sized)
    → pos 0 <ℤ st.sleeve_equity
    → over (abs_ℤ (delta_notional s)) (pos_part st.sleeve_equity) < rebalance_band_pct
    → (reason : Reject) × (guard_plan intent st snap l s ≡ some reason)
guard-in_band intent st snap l s rich near = elim (Option-cases (guard_plan intent st snap l s)) [
  | inl passed ↦ absurd (not_passed intent st snap l s rich near passed)
  | inr (reason, e) ↦ (reason, e)
]

-- The guards of a purchase without legs: it goes up, by its whole difference.
purchase_up :
    (intent : Intent) (st : AgentState) (snap : MarketSnapshot) (l : LotLedger) (s : Sized) (q : ℕ)
    → has_legs intent ≡ false
    → intent.action ≢ Action.close
    → guard_plan intent st snap l s ≡ none
    → side_of intent s ≡ OrderSide.buy
    → (intent.action ≢ Action.sell)
      × (pos s.current_notional ≤ℤ s.target_notional)
      × (position_value intent s ≡ pos_part s.target_notional - s.current_notional)
      × (capped_qty intent s q ≡ q)
unfolding side_of capped_qty guard_plan
purchase_up intent st snap l s q plain no_close passed buy = ground arith

module _ (ctx : PlanContext) (intent : Intent) (st : AgentState) (snap : MarketSnapshot)
    (p : Planner) where
  -- Sized with another ledger, an intent has the same target, and its position is worth what that
  -- ledger holds of it.
  size-ledger :
      (emg mark : ℕ) (l : LotLedger)
      → has_legs intent ≡ false
      → price ctx intent st snap p ≡ some mark
      → let s' = size emg ctx intent st snap l in
        (s'.target_notional ≡ (size emg ctx intent st snap p.ledger).target_notional)
        × (s'.current_notional
            ≡ times (total_open_qty intent.agent_id (normalize_symbol intent.symbol) l) mark)
  unfolding size
  size-ledger emg mark l plain at = (refl, rw (plain, at) refl)

  plan_sized-dropped :
      (s : Sized) (reason : Reject)
      → guard_plan intent st snap p.ledger s ≡ some reason
      → (plan_sized ctx intent st snap s p).0 ≡ dropped reason
  unfolding plan_sized
  plan_sized-dropped s reason e = rw (plan_sized, e) (drop_intent-dropped reason p)

  plan_open-dropped :
      (emg : ℕ) (reason : Reject)
      → gross_of ctx intent st snap ≡ some emg
      → guard_plan intent st snap p.ledger (size emg ctx intent st snap p.ledger) ≡ some reason
      → (plan_open ctx intent st snap p).0 ≡ dropped reason
  unfolding plan_open
  plan_open-dropped emg reason gross e =
      rw (plan_open, gross) (plan_sized-dropped (size emg ctx intent st snap p.ledger) reason e)

  -- Within the band, an intent that is no exit and no sale is dropped.
  dropped-in_band :
      (emg : ℕ)
      → is_exit intent ≡ false
      → intent.action ≢ Action.sell
      → gross_of ctx intent st snap ≡ some emg
      → pos 0 <ℤ st.sleeve_equity
      → over
          (abs_ℤ (delta_notional (size emg ctx intent st snap p.ledger)))
          (pos_part st.sleeve_equity)
        < rebalance_band_pct
      → (reason : Reject) × ((plan ctx intent st snap p).0 ≡ dropped reason)
  unfolding plan
  dropped-in_band emg other no_sale gross rich near =
      let (reason, e) =
        guard-in_band intent st snap p.ledger (size emg ctx intent st snap p.ledger) rich near in
      let opened = plan_open-dropped emg reason gross e in
      let buys : (intent.action == Action.sell) ≡ false =
        beq_ne intent.action Action.sell no_sale in
      (reason, rw (other, buys) opened)

-- A difference of positions that are within a step of each other.
delta-small :
    (s : Sized) (mark : ℕ)
    → pos 0 ≤ℤ s.target_notional
    → 2 * unit * s.current_notional ≤ 2 * unit * pos_part s.target_notional + 2 * unit + mark
    → 2 * unit * pos_part s.target_notional
      ≤ 2 * unit * s.current_notional + 2 * unit + (2 * qty_step + 1) * mark
    → 2 * unit * abs_ℤ (delta_notional s) ≤ 2 * unit + (2 * qty_step + 1) * mark
delta-small s mark positive above below = ground arith

module _ (ctx : PlanContext) (intent : Intent) (st : AgentState) (snap : MarketSnapshot)
    (p : Planner) where
  -- A purchase was sized from the difference to the target.
  purchase_of :
      (s : Sized) (mark : ℕ) (o : Order)
      → has_legs intent ≡ false
      → intent.action ≢ Action.close
      → o.side ≡ OrderSide.buy
      → IsSizedBy ctx intent st snap p s mark o
      → (intent.action ≢ Action.sell)
        × (pos s.current_notional ≤ℤ s.target_notional)
        × (o.qty ≡ qty_of false (pos_part s.target_notional - s.current_notional) mark)
  purchase_of s mark o plain no_close buy (passed, _, side, qty) =
      let value = position_value intent s in
      let (no_sale, below, whole, uncapped) =
        purchase_up intent st snap p.ledger s (qty_of (has_legs intent) value mark) plain no_close
          passed (sym side ∙ buy) in
      (no_sale, below, qty ∙ uncapped ∙ rw (whole, plain) refl)

  -- The ledger after a purchase: another plan has a difference within the band.
  filled-in_band :
      (emg mark : ℕ) (o : Order) (l : LotLedger)
      → let s = size emg ctx intent st snap p.ledger in
        let s' = size emg ctx intent st snap l in
        has_legs intent ≡ false
        → price ctx intent st snap p ≡ some mark
        → pos s.current_notional ≤ℤ s.target_notional
        → o.qty ≡ qty_of false (pos_part s.target_notional - s.current_notional) mark
        → total_open_qty intent.agent_id (normalize_symbol intent.symbol) l
          ≡ held ctx intent st snap p + o.qty
        → pos unit ≤ℤ st.sleeve_equity
        → mark ≤ 1000000 * pos_part st.sleeve_equity
        → over (abs_ℤ (delta_notional s')) (pos_part st.sleeve_equity) < rebalance_band_pct
  filled-in_band emg mark o l plain at below qty booked dollar fine =
      let s = size emg ctx intent st snap p.ledger in
      let s' = size emg ctx intent st snap l in
      let held_qty = held ctx intent st snap p in
      let positive =
        usable_mark-positive (snap.current_prices (normalize_symbol intent.symbol)) mark at in
      let (_, was) = size-ledger ctx intent st snap p emg mark p.ledger plain at in
      let (same, now) = size-ledger ctx intent st snap p emg mark l plain at in
      let filled : total_open_qty intent.agent_id (normalize_symbol intent.symbol) l
          ≡ held_qty + qty_of false (pos_part s.target_notional - times held_qty mark) mark =
        booked
        ∙ ap (λ q. held_qty + q)
            (qty ∙ ap (λ c. qty_of false (pos_part s.target_notional - c) mark) was) in
      let near =
        filled-near (pos_part s.target_notional) held_qty mark positive
          (rw (sym was) (omega arith)) in
      let now' = now ∙ ap (λ q. times q mark) filled in
      near-in_band (abs_ℤ (delta_notional s')) mark (pos_part st.sleeve_equity) (omega arith) fine (
        delta-small s' mark (rw same (omega arith)) (rw (now', same) (near.0))
          (rw (now', same) (near.1)))

  -- What a purchase adds to its position.
  booked-held :
      (o : Order) (f : Fill) (method : LotMethod) (lot_id : ℕ)
      → f.side ≡ OrderSide.buy
      → f.agent_id ≡ intent.agent_id
      → f.symbol ≡ normalize_symbol intent.symbol
      → f.qty ≡ o.qty
      → member f.id p.ledger.booked ≡ false
      → lookup lot_id p.ledger.lots ≡ none
      → total_open_qty intent.agent_id
          (normalize_symbol intent.symbol)
          (book_fill f method lot_id p.ledger)
        ≡ held ctx intent st snap p + o.qty
  booked-held o f method lot_id buy agent symbol qty new fresh =
      let s = normalize_symbol intent.symbol in
      let mine : (f.agent_id == intent.agent_id) ≡ true = rw agent (beq_refl intent.agent_id) in
      let there : (normalize_symbol f.symbol == normalize_symbol s) ≡ true =
        rw symbol (beq_refl (normalize_symbol s)) in
      book_fill-buy f method lot_id p.ledger intent.agent_id s buy new fresh
      ∙ ap (λ q. held ctx intent st snap p + q) (rw (mine, there) qty)

  -- A purchase without legs that is filled in one new fill, and booked as a new lot, is not made
  -- again: the same intent, planned in the same market, is dropped. The sleeve has a dollar at
  -- least, and a millionth of a share is worth no more than the sleeve.
  pub plan-replan :
      (o : Order) (f : Fill) (method : LotMethod) (lot_id : ℕ)
      → (plan ctx intent st snap p).0 ≡ planned o
      → has_legs intent ≡ false
      → o.side ≡ OrderSide.buy
      → f.agent_id ≡ intent.agent_id
      → f.symbol ≡ normalize_symbol intent.symbol
      → f.side ≡ o.side
      → f.qty ≡ o.qty
      → member f.id p.ledger.booked ≡ false
      → lookup lot_id p.ledger.lots ≡ none
      → pos unit ≤ℤ st.sleeve_equity
      → ((mark : ℕ)
          → price ctx intent st snap p ≡ some mark
          → mark ≤ 1000000 * pos_part st.sleeve_equity)
      → let l = book_fill f method lot_id p.ledger in
        (reason : Reject) × ((plan ctx intent st snap (record p { ledger = l })).0 ≡ dropped reason)
  plan-replan o f method lot_id h plain buy agent symbol side qty new fresh dollar fine =
      elim (plan-cases ctx intent st snap p o h) [
        | inl (exit, closed) ↦
            let (_, _, sell, _) = plan_close-qty ctx intent st snap p o closed in
            absurd (ground arith)
        | inr (other, _, opened) ↦
            let (emg, mark, gross, at, sized) = sized_of-plan_open ctx intent st snap p o opened in
            let s = size emg ctx intent st snap p.ledger in
            let l = book_fill f method lot_id p.ledger in
            let no_close : intent.action ≢ Action.close = λ e. ground arith in
            let (no_sale, below, whole) = purchase_of s mark o plain no_close buy sized in
            let booked = booked-held o f method lot_id (side ∙ buy) agent symbol qty new fresh in
            let near =
              filled-in_band emg mark o l plain at below whole booked dollar (fine mark at) in
            dropped-in_band ctx intent st snap (record p { ledger = l }) emg other no_sale gross
              (omega arith) near
      ]
