-- ===== src/KillSwitch/Examples.antt =====
-- The kill switch at concrete values, heartbeats and results.
use multi_agent_llm_trading.Prelude.{◌≡◌, refl, true, false, some, List, [], ◌∷◌, max}
use multi_agent_llm_trading.Prelude.Int.{pos}
use multi_agent_llm_trading.Types.{KillSwitchState}
use multi_agent_llm_trading.KillSwitch.{
  KillSwitchEngine, new_engine, update_nav, compute_drawdown, can_trade, fresh_record,
}
use multi_agent_llm_trading.KillSwitch.Drawdown.{
  severity, ladder, is_drawdown_state, update_nav-severity,
}
use multi_agent_llm_trading.KillSwitch.History.{Op, apply_all}
use multi_agent_llm_trading.KillSwitch.Latch.{liquidation_latched}

abbrev at_peak : KillSwitchEngine
at_peak = record (new_engine 60) {
  state = KillSwitchState.ok;
  daily_pnl_pct = pos 0;
  peak_nav = some (pos 1000);
  current_nav = some (pos 1000);
  last_heartbeat = some 0;
  heartbeat_timeout_secs = 60;
  agent_records = λ _. fresh_record;
}

abbrev liquidating : KillSwitchEngine
liquidating = record at_peak { state = KillSwitchState.drawdown_liquidate }

update_nav-severity_example :
    let k' = (update_nav (pos 700) at_peak).1 in
    (severity k'.state ≡ max (severity at_peak.state) (ladder (compute_drawdown k')))
    × (is_drawdown_state k'.state ≡ true)
update_nav-severity_example = update_nav-severity (pos 700) at_peak refl

-- A value at the peak again, a daily reset and a heartbeat.
abbrev calls : List Op
calls = Op.nav (pos 1000) ∷ Op.daily ∷ Op.heartbeat 5 ∷ []

liquidation_latched_example : can_trade (apply_all calls liquidating) ≡ false
liquidation_latched_example = liquidation_latched calls liquidating (refl, (refl, (refl, tt))) refl
