-- ===== src/Tax.antt =====
-- execution/tax.py: the wash-sale tracker.
pub mod Window
use multi_agent_llm_trading.Prelude.{
  ℕ, ◌+◌, ◌-◌, ◌*◌, max, Bool, true, false, not, ◌&&◌, String, Option, none, some, List, [], ◌∷◌,
  push, keep, ltb, leb, string_eq, ◌==◌, if◌then◌else◌,
}
use multi_agent_llm_trading.Prelude.Int.{ℤ, pos, pos_part, neg_part, sub_ℕ, leb_ℤ}
use multi_agent_llm_trading.Types.{AgentId, agent_id_eq, Lot}

abbrev pub wash_sale_window_days : ℕ
wash_sale_window_days = 30

-- The loss is in units of 10^-36, those of price times quantity.
pub record WashSaleRecord : Type 0 where
  pub symbol : String
  pub agent_id : AgentId
  pub sale_date : ℕ
  pub loss : ℤ

-- `Lot.realized_pnl`: (exit price - entry price) * (qty - remaining qty), the remaining quantity
-- being at most the quantity.
abbrev pub realized_pnl : Lot → Option ℤ
realized_pnl lot = elim lot.exit_price [
  | none ↦ none
  | some price ↦
      let closed_qty = lot.qty - lot.remaining_qty in
      some (sub_ℕ (price * closed_qty) (lot.entry_price * closed_qty))
]

abbrev pub loss_of : Lot → Option ℤ → Option ℕ → Option WashSaleRecord
loss_of lot none _ = none
loss_of lot (some pnl) none = none
loss_of lot (some pnl) (some exit_date) =
    if leb_ℤ (pos 0) pnl
    then none
    else some
        (record { symbol = lot.symbol; agent_id = lot.agent_id; sale_date = exit_date; loss = pnl })

unfoldable pub record_sale : Lot → List WashSaleRecord → List WashSaleRecord
record_sale lot records = elim (loss_of lot (realized_pnl lot) lot.exit_date) [
  | none ↦ records
  | some r ↦ push records r
]

abbrev pub concerns : AgentId → String → WashSaleRecord → Bool
concerns agent_id symbol r = r.agent_id == agent_id && r.symbol == symbol

-- 0 <= (buy_date - sale_date).days <= 30
abbrev pub in_window : ℕ → ℕ → Bool
in_window sale_date buy_date =
    leb sale_date buy_date && leb (buy_date - sale_date) wash_sale_window_days

unfoldable pub is_blocked : AgentId → String → ℕ → List WashSaleRecord → Bool
is_blocked agent_id symbol buy_date [] = false
is_blocked agent_id symbol buy_date (r ∷ rs) =
    let rest = is_blocked agent_id symbol buy_date rs in
    if concerns agent_id symbol r && in_window r.sale_date buy_date then true else rest

-- The loop of `days_remaining`, on the best so far.
pub best_remaining : AgentId → String → ℕ → ℕ → List WashSaleRecord → ℕ
best_remaining agent_id symbol check_date best [] = best
best_remaining agent_id symbol check_date best (r ∷ rs) =
    let window_end = r.sale_date + wash_sale_window_days in
    best_remaining agent_id symbol check_date
      (if concerns agent_id symbol r && leb check_date window_end
        then max best (window_end - check_date)
        else best)
      rs

unfoldable pub days_remaining : AgentId → String → ℕ → List WashSaleRecord → ℕ
unfolding best_remaining
days_remaining agent_id symbol check_date records =
    best_remaining agent_id symbol check_date 0 records

-- Open lots whose price is below their entry price; a symbol with no price is passed over.
unfoldable pub harvesting_candidates : (String → Option ℕ) → List Lot → List Lot
harvesting_candidates prices = keep (λ lot.
    not lot.is_closed
    && (elim (prices lot.symbol) [ none ↦ false | some price ↦ ltb price lot.entry_price ]))
