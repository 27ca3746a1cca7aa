-- ===== src/Reconciler/Pass.antt =====
-- execution/reconciler.py: `reconcile_once`.
use multi_agent_llm_trading.Prelude.{
  ℕ, Bool, ◌&&◌, String, Option, none, some, List, length, ◌==◌, eqb, if◌then◌else◌,
}
use multi_agent_llm_trading.Types.{KillSwitchState, kill_switch_state_eq}
use multi_agent_llm_trading.KillSwitch.{check_heartbeat, clear_reconciliation_break}
use multi_agent_llm_trading.Oms.Vocabulary.{BrokerOrderStatus, BrokerPosition}
use multi_agent_llm_trading.Oms.State.{Outcome, Result, ok, raised}
use multi_agent_llm_trading.Oms.Api.{GhostIds}
use multi_agent_llm_trading.Reconciler.{
  Reconciler, ReconcileResult, heartbeat_missed, kill_switch_reset, kill_switch_tripped, notify,
}
use multi_agent_llm_trading.Reconciler.Orders.{list_open_orders, reconcile_orders}
use multi_agent_llm_trading.Reconciler.Positions.{reconcile_positions}

-- `str(state)`
abbrev pub state_text : KillSwitchState → String
state_text KillSwitchState.ok = "ok"
state_text KillSwitchState.daily_loss = "daily_loss"
state_text KillSwitchState.drawdown_halved = "drawdown_halved"
state_text KillSwitchState.drawdown_paused = "drawdown_paused"
state_text KillSwitchState.drawdown_liquidate = "drawdown_liquidate"
state_text KillSwitchState.reconciliation_break = "reconciliation_break"
state_text KillSwitchState.heartbeat_missed = "heartbeat_missed"
state_text KillSwitchState.budget_exhausted = "budget_exhausted"

-- The heartbeat is checked on every pass; a miss is published when the state was OK before.
unfoldable pub watch_heartbeat : ℕ → Reconciler → Reconciler
watch_heartbeat ts r =
    let r' = record r { kill = (check_heartbeat ts r.kill).1 } in
    if r.kill.state == KillSwitchState.ok && r'.kill.state == KillSwitchState.heartbeat_missed
    then notify heartbeat_missed r'
    else r'

-- The state of the kill switch is published when it is not that of the last pass.
unfoldable pub forward_state : Bool → Reconciler → Reconciler
forward_state tripped r =
    let new_state = r.kill.state in
    let reason = if tripped then "reconciliation_break" else state_text new_state in
    let notice =
      if new_state == KillSwitchState.ok
      then kill_switch_reset
      else kill_switch_tripped new_state reason in
    elim r.bus [
      | none ↦ r
      | some _ ↦
          if new_state == r.last_kill_state
          then r
          else record (notify notice r) { last_kill_state = new_state }
    ]

-- A break is cleared by a pass that finds no mismatch.
abbrev pub clear_if : ℕ → Reconciler → Reconciler
clear_if mismatches r =
    if eqb mismatches 0 then record r { kill = clear_reconciliation_break r.kill } else r

-- What follows the order polls; an exception in them ends the pass.
abbrev pub finish_pass :
    (String → GhostIds)
    → (List String → List String)
    → Option (List BrokerPosition)
    → ℕ
    → ℕ
    → Reconciler
    → Outcome ℕ
    → Result ReconcileResult × Reconciler
finish_pass ids arrange positions ts checked r (raised e, o) = (raised e, record r { oms = o })
finish_pass ids arrange positions ts checked r (ok orders_updated, o) =
    let out = reconcile_positions ids arrange positions ts (record r { oms = o }) in
    (
      ok (record {
        orders_checked = checked;
        orders_updated = orders_updated;
        position_mismatches = out.0.0;
        kill_switch_tripped = out.0.1;
      }),
      forward_state out.0.1 (clear_if out.0.0 out.1),
    )

unfoldable pub reconcile_once :
    (String → Option BrokerOrderStatus)
    → (ℕ → ℕ)
    → (String → GhostIds)
    → (List String → List String)
    → Option (List BrokerPosition)
    → ℕ
    → Reconciler
    → Result ReconcileResult × Reconciler
reconcile_once get_order fill_id ids arrange positions ts r =
    let r1 = watch_heartbeat ts r in
    let open_orders = list_open_orders r1.oms in
    finish_pass ids arrange positions ts (length open_orders) r1
      (reconcile_orders get_order fill_id ts open_orders 0 r1.oms)
