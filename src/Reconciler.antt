-- ===== src/Reconciler.antt =====
-- execution/reconciler.py: Reconciler, which compares the broker with the OMS once a minute.
--
-- What the broker answers is an argument: `get_order` gives the status of an order, or `none` where
-- the call raises, and `list_positions` the positions, or `none`. Ids that are drawn, and the order
-- in which a set is iterated, are functions given as arguments. `bus` holds what was published.
pub mod Orders
pub mod Positions
pub mod Pass
pub mod Polling
pub mod Breaks
pub mod Expected
pub mod Adoption
mod Examples
use multi_agent_llm_trading.Prelude.{
  ℕ, Bool, true, false, ◌||◌, not, String, Option, none, some, List, [], ◌∷◌, ◌++◌, push, keep, map,
  string_eq, ◌==◌,
}
use multi_agent_llm_trading.Prelude.Int.{ℤ}
use multi_agent_llm_trading.Types.{AgentId, KillSwitchState, Order, OrderState, Fill, OrderSide}
use multi_agent_llm_trading.KillSwitch.{KillSwitchEngine}
use multi_agent_llm_trading.Oms.State.{Oms}

-- The events of core/events.py that the reconciler publishes. Amounts are in units of 10^-36.
pub data Notice : Type 0 where
  heartbeat_missed kill_switch_reset : Notice
  kill_switch_tripped : (new_state : KillSwitchState) (reason : String) → Notice
  reconciliation_break : (symbol : String) (local_qty broker_qty : ℤ) (delta_usd : ℕ) → Notice

pub record Reconciler : Type 0 where
  pub oms : Oms
  pub kill : KillSwitchEngine
  pub bus : Option (List Notice)
  pub qty_tolerance : ℕ
  pub orphan_agent_id : AgentId
  pub last_kill_state : KillSwitchState
  pub alerted_breaks : List String

pub record ReconcileResult : Type 0 where
  pub orders_checked : ℕ
  pub orders_updated : ℕ
  pub position_mismatches : ℕ
  pub kill_switch_tripped : Bool

-- `Reconciler(…)`
abbrev pub new_reconciler : Oms → KillSwitchEngine → ℕ → Option (List Notice) → AgentId → Reconciler
new_reconciler oms kill qty_tolerance bus orphan_agent_id = record {
  oms = oms;
  kill = kill;
  bus = bus;
  qty_tolerance = qty_tolerance;
  orphan_agent_id = orphan_agent_id;
  last_kill_state = kill.state;
  alerted_breaks = [];
}

-- `self._bus.publish(notice)`, where there is a bus.
abbrev pub notify : Notice → Reconciler → Reconciler
notify notice r = record r {
  bus = elim r.bus [ none ↦ none | some sent ↦ some (push sent notice) ];
}

-- `s in names`
pub is_in : String → List String → Bool
is_in s [] = false
is_in s (x ∷ xs) = s == x || is_in s xs
