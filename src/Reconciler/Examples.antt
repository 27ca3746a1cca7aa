-- ===== src/Reconciler/Examples.antt =====
-- The reconciler at concrete books.
use multi_agent_llm_trading.Prelude.{
  ℕ, ◌≡◌, ◌⊎◌, refl, inl, not, String, none, some, [], ◌∷◌, eqb, nat_eq, string_eq, ◌==◌,
  if◌then◌else◌, max, arith,
}
use multi_agent_llm_trading.Prelude.Int.{ℤ, pos, ◌+ℤ◌}
use multi_agent_llm_trading.Prelude.Dict.{lookup}
use multi_agent_llm_trading.Types.{
  AgentId, AssetClass, KillSwitchState, OrderSide, accepted, percent,
}
use multi_agent_llm_trading.Fsm.OrderFsm.{order_machine}
use multi_agent_llm_trading.KillSwitch.{new_engine, check_heartbeat, trip_reconciliation_break}
use multi_agent_llm_trading.Oms.Vocabulary.{BrokerOrderState, BrokerOrderStatus, BrokerPosition}
use multi_agent_llm_trading.Oms.State.{Entry, Oms, ok}
use multi_agent_llm_trading.Oms.Api.{GhostIds, ghost_order, adopt_orphan_position}
use multi_agent_llm_trading.Reconciler.{Reconciler, ReconcileResult, new_reconciler}
use multi_agent_llm_trading.Reconciler.Orders.{check_order, reconcile_orders}
use multi_agent_llm_trading.Reconciler.Positions.{
  Comparison, compare_symbol, compute_expected_positions, sum_fills, qty_or_zero,
}
use multi_agent_llm_trading.Reconciler.Pass.{reconcile_once}
use multi_agent_llm_trading.Reconciler.Polling.{IsFilledWith, poll_twice}
use multi_agent_llm_trading.Reconciler.Breaks.{
  after_pass, reconcile_once-kill, reconcile_once-outage,
}
use multi_agent_llm_trading.Reconciler.Adoption.{adopt-agrees}

abbrev ids : GhostIds
ids = record { order_id = 1; intent_id = 2; fill_id = 3; broker_id = "b1" }

abbrev entry : Entry
entry = record {
  order = record (ghost_order ids OrderSide.buy "SPY" (percent 500) AgentId.haiku 10) {
    state = accepted;
    broker_order_id = some "b1";
  };
  fsm = order_machine accepted;
  fills = [];
}

abbrev books : Oms
books = record {
  entries = (1, entry) ∷ [];
  broker_id_to_order = ("b1", 1) ∷ [];
  store = [];
  bus = [];
}

-- The broker has filled the order, all but a sliver.
abbrev status : BrokerOrderStatus
status = record {
  broker_order_id = "b1";
  client_order_id = 1;
  symbol = "SPY";
  side = OrderSide.buy;
  qty = percent 500;
  filled_qty = percent 499;
  avg_fill_price = some (percent 20000);
  state = BrokerOrderState.filled;
  submitted_at = 20;
  updated_at = 30;
  rejection_reason = none;
}

poll_twice_example :
    let poll = check_order (λ _. some status) (λ n. n) 40 in
    let first = poll entry.order books in
    (first.0 ≡ ok 1)
    × (IsFilledWith 1 (max 0 (percent 499)) first.1
        ⊎ ((e' : Entry) × (lookup 1 first.1.entries ≡ some e')
            × (e'.order.filled_qty ≡ percent 499)
            × ((poll e'.order first.1).0 ≡ ok 1)
            × IsFilledWith 1 (percent 499) (poll e'.order first.1).1))
poll_twice_example =
    poll_twice (λ _. some status) (λ n. n) 40 1 "b1" status refl refl refl entry books
      (record {
        known = refl;
        step = record { same_state = refl; order_table = refl };
        live = inl refl;
        same_id = refl;
        broker_id = refl;
      })

abbrev qqq : String
qqq = "QQQ"

abbrev position : ℕ → BrokerPosition
position qty = record {
  symbol = "QQQ";
  qty = pos qty;
  avg_entry_price = percent 40000;
  current_price = percent 40000;
  asset_class = AssetClass.equity;
}

abbrev empty : Oms
empty = record { entries = []; broker_id_to_order = []; store = []; bus = [] }

abbrev broken : Reconciler
broken =
    new_reconciler empty (trip_reconciliation_break (new_engine 60)) (percent 100) (some [])
      AgentId.haiku

-- The broker owes a share and a half, which is no position to adopt.
abbrev short : BrokerPosition
short = record (position 0) { qty = ℤ.negsuc (percent 150) }

reconcile_once-kill_example :
    let out =
      reconcile_once (λ _. none) (λ n. n) (λ _. ids) (λ l. l) (some (short ∷ [])) 50 broken in
    (result : ReconcileResult) × (out.0 ≡ ok result)
    × (result.kill_switch_tripped ≡ not (eqb result.position_mismatches 0))
    × (out.1.kill ≡ after_pass result.position_mismatches (check_heartbeat 50 broken.kill).1)
reconcile_once-kill_example =
    reconcile_once-kill (λ _. none) (λ n. n) (λ _. ids) (λ l. l) 50 (some (short ∷ [])) broken 0
      empty (unfold reconcile_orders in refl)

reconcile_once-outage_example :
    let out = reconcile_once (λ _. none) (λ n. n) (λ _. ids) (λ l. l) none 50 broken in
    (result : ReconcileResult) × (out.0 ≡ ok result)
    × (result.position_mismatches ≡ 0)
    × (out.1.kill.state ≡ KillSwitchState.ok)
reconcile_once-outage_example =
    reconcile_once-outage (λ _. none) (λ n. n) (λ _. ids) (λ l. l) 50 broken 0 empty
      (unfold reconcile_orders in refl)
      (unfold check_heartbeat new_engine trip_reconciliation_break in refl)
      (unfold trip_reconciliation_break in refl)

abbrev ghost_ids : GhostIds
ghost_ids = record { order_id = 5; intent_id = 6; fill_id = 7; broker_id = "g5" }

adopt-agrees_example :
    let out =
      adopt_orphan_position ghost_ids "QQQ" (percent 150) (percent 40000) AgentId.haiku 60 books in
    let before = compute_expected_positions books in
    let after = compute_expected_positions out.1 in
    (out.0 ≡ ok tt)
    × (qty_or_zero (lookup "QQQ" after)
        ≡ qty_or_zero (lookup "QQQ" before) +ℤ (if qqq == qqq then pos (percent 150) else pos 0))
    × (compare_symbol
          (percent 100)
          (qty_or_zero (lookup "QQQ" after))
          (some (position (percent 150)))
        ≡ Comparison.agree)
adopt-agrees_example =
    adopt-agrees ghost_ids "QQQ" (percent 150) (percent 40000) AgentId.haiku 60 books (percent 100)
      (position (percent 150)) "QQQ" (omega arith) refl refl (λ e. absurd (omega arith), tt)
      (unfold compute_expected_positions sum_fills in refl)
