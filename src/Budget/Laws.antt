-- ===== src/Budget/Laws.antt =====
-- The ledger's total, its days, and its restart.
use multi_agent_llm_trading.Prelude.{
  ℕ, ◌+◌, ◌≤◌, ◌≡◌, ◌↔◌, ◌≢◌, refl, true, String, Option, none, some, List, [], ◌∷◌, push, max,
  arith, All, All-append,
}
use multi_agent_llm_trading.Types.{date_of}
use multi_agent_llm_trading.Budget.{
  SpendEntry, BudgetLedger, Op, apply, apply_all, record_spend, reset_if_new_day, ensure_date,
  today_spent, remaining, is_exhausted, new_ledger,
}

unfoldable pub sum_costs : List SpendEntry → ℕ
sum_costs [] = 0
sum_costs (e ∷ es) = e.cost_usd + sum_costs es

-- Every entry is of the ledger's day.
abbrev pub EntriesOf : Option ℕ → List SpendEntry → Type 0
EntriesOf none es = es ≡ []
EntriesOf (some d) es = All (λ e. date_of e.ts ≡ d) es

-- The total is the sum of the entries, and all of them are of the ledger's day.
pub record IsConsistent (b : BudgetLedger) : Type 0 where
  pub sums : b.total ≡ sum_costs b.entries
  pub dated : EntriesOf b.today b.entries

sum_costs-push :
    (es : List SpendEntry) (e : SpendEntry) → sum_costs (push es e) ≡ sum_costs es + e.cost_usd
unfolding sum_costs
sum_costs-push [] e = omega arith
sum_costs-push (x ∷ es) e = omega (arith, sum_costs-push es e)

ensure_date-IsConsistent :
    (d : ℕ) (b : BudgetLedger)
    → IsConsistent b
    → IsConsistent (ensure_date d b) × ((ensure_date d b).today ≡ some d)
unfolding ensure_date sum_costs
ensure_date-IsConsistent d b h = ground arith

EntriesOf-push :
    (d : ℕ) (es : List SpendEntry) (e : SpendEntry)
    → EntriesOf (some d) es
    → date_of e.ts ≡ d
    → EntriesOf (some d) (push es e)
EntriesOf-push d es e h k = All-append (λ x. date_of x.ts ≡ d) es (e ∷ []) h (k, tt)

record_spend-IsConsistent :
    (clock : ℕ) (a : String) (cost : ℕ) (call : String) (ts : ℕ) (b : BudgetLedger)
    → IsConsistent b
    → IsConsistent (record_spend clock a cost call ts b)
unfolding record_spend
record_spend-IsConsistent clock a cost call ts b h =
    let e : SpendEntry = record { ts = ts; agent_id = a; call_type = call; cost_usd = cost } in
    let b' = ensure_date (date_of ts) b in
    let (kept, today) = ensure_date-IsConsistent (date_of ts) b h in
    let entries : EntriesOf (some (date_of ts)) b'.entries = rw today at kept.dated in
    record {
      sums = omega (arith, sum_costs-push b'.entries e, kept.sums);
      dated = rw today (EntriesOf-push (date_of ts) b'.entries e entries refl);
    }

reset_if_new_day-IsConsistent :
    (clock d : ℕ) (b : BudgetLedger) → IsConsistent b → IsConsistent (reset_if_new_day clock d b).1
unfolding reset_if_new_day sum_costs
reset_if_new_day-IsConsistent clock d b h = ground arith

apply-IsConsistent : (op : Op) (b : BudgetLedger) → IsConsistent b → IsConsistent (apply op b)
unfolding apply
apply-IsConsistent (Op.spend clock a cost call ts) b h =
    record_spend-IsConsistent clock a cost call ts b h
apply-IsConsistent (Op.rollover clock d) b h = reset_if_new_day-IsConsistent clock d b h

apply_all-IsConsistent :
    (ops : List Op) (b : BudgetLedger) → IsConsistent b → IsConsistent (apply_all ops b)
unfolding apply_all
apply_all-IsConsistent [] b h = h
apply_all-IsConsistent (op ∷ ops) b h =
    apply_all-IsConsistent ops (apply op b) (apply-IsConsistent op b h)

-- After any calls, what is spent today is the sum of the day's entries, all of them of that day; the
-- budget is exhausted exactly when that sum has reached the limit, which is when nothing remains.
pub budget_accounts :
    (ops : List Op) (b : BudgetLedger)
    → IsConsistent b
    → let b' = apply_all ops b in
      IsConsistent b'
      × ((is_exhausted b' ≡ true) ↔ (b'.limit ≤ sum_costs b'.entries))
      × ((is_exhausted b' ≡ true) ↔ (remaining b' ≡ 0))
      × (today_spent b' + remaining b' ≡ max b'.limit (sum_costs b'.entries))
unfolding is_exhausted remaining today_spent
budget_accounts ops b h =
    let h' = apply_all-IsConsistent ops b h in
    (h', (ground (arith, h'.sums), ground (arith, h'.sums)), ground arith, omega (arith, h'.sums))

ensure_date-today : (d : ℕ) (b : BudgetLedger) → (ensure_date d b).today ≡ some d
unfolding ensure_date
ensure_date-today d b = ground arith

-- A restart on the day (in UTC) of the last spend finds the ledger as it was, so the cap survives; on
-- any other day it starts with nothing spent.
pub restart_keeps_spend :
    (clock utc : ℕ) (a : String) (cost : ℕ) (call : String) (ts : ℕ) (b : BudgetLedger)
    → let b' = record_spend clock a cost call ts b in
      (utc ≡ date_of ts → new_ledger utc b'.limit b'.file ≡ b')
      × (utc ≢ date_of ts → today_spent (new_ledger utc b'.limit b'.file) ≡ 0)
unfolding record_spend new_ledger today_spent
restart_keeps_spend clock utc a cost call ts b = (
  λ e. ground (arith, ensure_date-today (date_of ts) b),
  λ ne. ground (arith, ensure_date-today (date_of ts) b),
)
