-- ===== src/Planner/Notional.antt =====
-- The marks of the market and the gross of a sleeve: `_sleeve_gross_notional`.
use multi_agent_llm_trading.Prelude.{
  ℕ, ◌+◌, String, Option, none, some, List, [], ◌∷◌, eqb, if◌then◌else◌,
}
use multi_agent_llm_trading.Prelude.Dict.{Dict}
use multi_agent_llm_trading.Types.{AgentId, Lot, MarketSnapshot, normalize_symbol, times}
use multi_agent_llm_trading.Lots.{LotLedger, open_lots}
use multi_agent_llm_trading.Lots.Aggregate.{open_qty_by_symbol}

-- `mark is None or mark <= 0`: no mark.
abbrev pub usable_mark : Option ℕ → Option ℕ
usable_mark none = none
usable_mark (some mark) = if eqb mark 0 then none else some mark

abbrev pub first_entry_price : List Lot → ℕ
first_entry_price [] = 0
first_entry_price (lot ∷ _) = lot.entry_price

abbrev pub mark_or_entry : Option ℕ → List Lot → ℕ
mark_or_entry none lots = first_entry_price lots
mark_or_entry (some mark) lots = mark

-- The mark of a symbol, or the entry price of its first open lot.
unfoldable pub mark_of : AgentId → MarketSnapshot → LotLedger → String → ℕ
mark_of agent_id snap l symbol =
    mark_or_entry (usable_mark (snap.current_prices (normalize_symbol symbol)))
      (open_lots agent_id symbol l)

-- One round of the loop.
abbrev pub value_of : AgentId → MarketSnapshot → LotLedger → String × ℕ → ℕ
value_of agent_id snap l (symbol, qty) =
    if eqb qty 0 then 0 else times qty (mark_of agent_id snap l symbol)

unfoldable pub sum_values : AgentId → MarketSnapshot → LotLedger → Dict String ℕ → ℕ
unfolding mark_of
sum_values agent_id snap l [] = 0
sum_values agent_id snap l (e ∷ d) = value_of agent_id snap l e + sum_values agent_id snap l d

unfoldable pub sleeve_gross_notional : AgentId → MarketSnapshot → LotLedger → ℕ
unfolding sum_values open_qty_by_symbol
sleeve_gross_notional agent_id snap l = sum_values agent_id snap l (open_qty_by_symbol agent_id l)
