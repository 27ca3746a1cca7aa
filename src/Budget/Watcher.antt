-- ===== src/Budget/Watcher.antt =====
-- `BudgetWatcher` of execution/budget.py: one check of its polling loop.
use multi_agent_llm_trading.Prelude.{
  ℕ, zero, suc, ◌≡◌, refl, Bool, true, false, Option, none, some, if◌then◌else◌,
}
use multi_agent_llm_trading.KillSwitch.{KillSwitchEngine, trip_budget_exhausted, can_open_new}
use multi_agent_llm_trading.Budget.{BudgetLedger, is_exhausted, today_spent}

pub record BudgetWatcher : Type 0 where
  pub tripped : Bool

-- `check_once`: whether it tripped, the watcher and the switch after it, and the amount that a
-- BudgetExhaustedEvent carries if one is published.
unfoldable pub check_once :
    BudgetLedger
    → BudgetWatcher
    → KillSwitchEngine
    → Bool × BudgetWatcher × KillSwitchEngine × Option ℕ
check_once ledger w kill =
    if w.tripped
    then (false, w, kill, none)
    else if is_exhausted ledger
    then (true, record { tripped = true }, trip_budget_exhausted kill, some (today_spent ledger))
    else (false, w, kill, none)

-- `reset`
abbrev pub reset_watcher : BudgetWatcher → BudgetWatcher
reset_watcher w = record { tripped = false }

-- A number of checks of the loop, with no call of anybody else between them.
unfoldable pub check_times :
    ℕ → BudgetLedger → BudgetWatcher → KillSwitchEngine → BudgetWatcher × KillSwitchEngine
check_times zero ledger w kill = (w, kill)
check_times (suc n) ledger w kill =
    let (_, w', kill', _) = check_once ledger w kill in check_times n ledger w' kill'

check_times_tripped :
    (n : ℕ) (ledger : BudgetLedger) (kill : KillSwitchEngine)
    → check_times n ledger (record { tripped = true }) kill ≡ (record { tripped = true }, kill)
unfolding check_once check_times
check_times_tripped zero ledger kill = refl
check_times_tripped (suc n) ledger kill = check_times_tripped n ledger kill

-- An exhausted budget trips the switch at the first check, which reports it and tells what was
-- spent; no new position may be opened then, and every further check changes nothing.
pub check_once_trips :
    (n : ℕ) (ledger : BudgetLedger) (kill : KillSwitchEngine)
    → is_exhausted ledger ≡ true
    → let w : BudgetWatcher = record { tripped = false } in
      let (tripped, w', kill', event) = check_once ledger w kill in
      (tripped ≡ true)
      × (event ≡ some (today_spent ledger))
      × (can_open_new kill' ≡ false)
      × (check_times (suc n) ledger w kill ≡ (w', kill'))
unfolding check_once check_times can_open_new trip_budget_exhausted
check_once_trips n ledger kill h = rw h (refl, refl, refl, check_times_tripped n ledger _)
