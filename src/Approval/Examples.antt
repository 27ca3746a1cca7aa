-- ===== src/Approval/Examples.antt =====
-- The approval queue at a concrete intent.
use multi_agent_llm_trading.Prelude.{◌≡◌, refl, true, false, none, some, List, [], ◌∷◌, nat_eq}
use multi_agent_llm_trading.Prelude.Dict.{lookup}
use multi_agent_llm_trading.Prelude.Int.{pos}
use multi_agent_llm_trading.Types.{AgentId, Action, Sleeve, Intent}
use multi_agent_llm_trading.Approval.{
  PendingIntent, ApprovalQueue, approve, reject, Op, approves, rejects, expires, apply_all,
}
use multi_agent_llm_trading.Approval.Decisions.{apply_all-decided}

abbrev intent : Intent
intent = record {
  id = 1;
  agent_id = AgentId.haiku;
  symbol = "SPY";
  action = Action.buy;
  target_weight = pos 100000000000000000;
  sleeve = Sleeve.equity;
  signal = "trend";
  conviction = pos 7;
  rationale = "";
  timestamp = 0;
  regime_observation = "";
  requires_approval = true;
  legs = [];
}

abbrev waiting : PendingIntent
waiting = record {
  intent = intent;
  received_at = 0;
  expires_at = 14400000000;
  approved = false;
  rejected = false;
}

abbrev one_waiting : ApprovalQueue
one_waiting = record { queue = (1, waiting) ∷ []; expiry_hours = 4 }

abbrev one_approved : ApprovalQueue
one_approved = record one_waiting { queue = (1, record waiting { approved = true }) ∷ [] }

abbrev later : List Op
later = rejects 1 ∷ approves 1 500 ∷ expires 14400000001 ∷ []

apply_all-decided_example :
    let q' = apply_all later one_approved in
    (lookup 1 q'.queue ≡ some (record waiting { approved = true }))
    × ((approve 1 600 q').0 ≡ none)
    × ((reject 1 q').0 ≡ false)
apply_all-decided_example =
    apply_all-decided 1 (record waiting { approved = true }) later one_approved 600 (refl, refl)
      (refl, (refl, (refl, tt)))
