-- ===== src/KillSwitch/Latch.antt =====
-- How long the liquidation state lasts.
use multi_agent_llm_trading.Prelude.{◌≡◌, refl, Bool, true, false, List, [], ◌∷◌, arith, All}
use multi_agent_llm_trading.Types.{KillSwitchState}
use multi_agent_llm_trading.KillSwitch.{KillSwitchEngine, can_trade}
use multi_agent_llm_trading.KillSwitch.History.{Op, apply, apply_all}

-- The calls that overwrite any state: the two trips, and a heartbeat check.
abbrev pub overwrites : Op → Bool
overwrites (Op.check _) = true
overwrites Op.reconciliation_break = true
overwrites Op.budget_exhausted = true
overwrites _ = false

apply-liquidate :
    (op : Op) (k : KillSwitchEngine)
    → overwrites op ≡ false
    → k.state ≡ KillSwitchState.drawdown_liquidate
    → (apply op k).state ≡ KillSwitchState.drawdown_liquidate
unfolding apply
apply-liquidate op k h e = ground arith

-- Liquidation is latched: no recovery of the value, daily reset, heartbeat, cleared break or agent
-- result ends it. Only a heartbeat check or one of the two trips can.
pub liquidation_latched :
    (ops : List Op) (k : KillSwitchEngine)
    → All (λ op. overwrites op ≡ false) ops
    → k.state ≡ KillSwitchState.drawdown_liquidate
    → can_trade (apply_all ops k) ≡ false
unfolding apply_all can_trade
liquidation_latched [] k h e = rw e refl
liquidation_latched (op ∷ ops) k h e =
    liquidation_latched ops (apply op k) h.1 (apply-liquidate op k h.0 e)
