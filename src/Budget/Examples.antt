-- ===== src/Budget/Examples.antt =====
-- The budget at concrete spends.
use multi_agent_llm_trading.Prelude.{◌+◌, ◌≤◌, ◌≡◌, ◌↔◌, refl, true, none, List, [], ◌∷◌, max}
use multi_agent_llm_trading.Budget.{
  BudgetLedger, SpendFile, Op, apply_all, is_exhausted, remaining, today_spent,
}
use multi_agent_llm_trading.Budget.Laws.{IsConsistent, sum_costs, budget_accounts}

abbrev empty : BudgetLedger
empty = record { limit = 5; today = none; total = 0; entries = []; file = SpendFile.missing }

abbrev ops : List Op
ops =
    Op.spend 0 "cassandra" 3 "weekly" 1000
    ∷ Op.rollover 0 0
    ∷ Op.spend 0 "cassandra" 4 "daily" 2000
    ∷ []

empty-IsConsistent : IsConsistent empty
unfolding sum_costs
empty-IsConsistent = record { sums = refl; dated = refl }

budget_accounts_example :
    let b' = apply_all ops empty in
    IsConsistent b'
    × ((is_exhausted b' ≡ true) ↔ (b'.limit ≤ sum_costs b'.entries))
    × ((is_exhausted b' ≡ true) ↔ (remaining b' ≡ 0))
    × (today_spent b' + remaining b' ≡ max b'.limit (sum_costs b'.entries))
budget_accounts_example = budget_accounts ops empty empty-IsConsistent
