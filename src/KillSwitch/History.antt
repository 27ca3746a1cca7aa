-- ===== src/KillSwitch/History.antt =====
-- A history of calls of the kill switch, as a list of operations.
use multi_agent_llm_trading.Prelude.{ℕ, Bool, List, [], ◌∷◌}
use multi_agent_llm_trading.Prelude.Int.{ℤ}
use multi_agent_llm_trading.Types.{AgentId}
use multi_agent_llm_trading.KillSwitch.{
  KillSwitchEngine, update_daily_pnl, update_nav, record_heartbeat, check_heartbeat,
  trip_reconciliation_break, trip_budget_exhausted, reset_daily, clear_reconciliation_break,
  record_agent_result, is_agent_benched,
}

-- The operations that change the engine, as data, so that a history of calls is a list.
pub data Op : Type 0 where
  daily_pnl nav : ℤ → Op
  heartbeat check : ℕ → Op
  reconciliation_break budget_exhausted daily clear : Op
  result : AgentId → Bool → ℕ → Op
  bench : AgentId → ℕ → Op

unfoldable pub apply : Op → KillSwitchEngine → KillSwitchEngine
unfolding update_daily_pnl update_nav record_heartbeat check_heartbeat trip_reconciliation_break
    trip_budget_exhausted reset_daily clear_reconciliation_break record_agent_result
    is_agent_benched
apply (Op.daily_pnl p) k = (update_daily_pnl p k).1
apply (Op.nav v) k = (update_nav v k).1
apply (Op.heartbeat ts) k = record_heartbeat ts k
apply (Op.check ts) k = (check_heartbeat ts k).1
apply Op.reconciliation_break k = trip_reconciliation_break k
apply Op.budget_exhausted k = trip_budget_exhausted k
apply Op.daily k = reset_daily k
apply Op.clear k = clear_reconciliation_break k
apply (Op.result a loss ts) k = (record_agent_result a loss ts k).1
apply (Op.bench a ts) k = (is_agent_benched a ts k).1

unfoldable pub apply_all : List Op → KillSwitchEngine → KillSwitchEngine
apply_all [] k = k
apply_all (op ∷ ops) k = apply_all ops (apply op k)
