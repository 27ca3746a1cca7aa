-- ===== src/Tracker/Pnl.antt =====
-- The profits of an agent's lots, and its closing losses in a row.
use multi_agent_llm_trading.Prelude.{
  ℕ, suc, ◌+◌, ◌*◌, not, ◌&&◌, String, Option, none, some, List, [], ◌∷◌, keep, leb, ◌==◌,
  if◌then◌else◌,
}
use multi_agent_llm_trading.Prelude.Int.{ℤ, pos, pos_part, neg_part, sub_ℕ, ◌+ℤ◌, ltb_ℤ}
use multi_agent_llm_trading.Types.{AgentId, agent_id_eq, Lot, unit, div_half_even, normalize_symbol}
use multi_agent_llm_trading.Tax.{realized_pnl}
use multi_agent_llm_trading.Lots.{dust_notional_usd}

-- From units of 10^-36 to units of 10^-18, half to even.
abbrev pub to_units : ℤ → ℤ
to_units z = sub_ℕ (div_half_even (pos_part z) unit) (div_half_even (neg_part z) unit)

abbrev pub pnl_or_zero : Option ℤ → ℤ
pnl_or_zero none = pos 0
pnl_or_zero (some pnl) = pnl

-- `_realized_pnl`
unfoldable pub realized : AgentId → List Lot → ℤ
realized agent_id [] = pos 0
realized agent_id (lot ∷ lots) =
    (if lot.agent_id == agent_id && lot.is_closed then pnl_or_zero (realized_pnl lot) else pos 0)
    +ℤ realized agent_id lots

abbrev pub or_else : Option ℕ → Option ℕ → Option ℕ
or_else none later = later
or_else (some mark) later = some mark

-- (mark - entry) * remaining, nothing where there is no mark.
abbrev pub paper_profit : Lot → Option ℕ → ℤ
paper_profit lot none = pos 0
paper_profit lot (some mark) =
    sub_ℕ (mark * lot.remaining_qty) (lot.entry_price * lot.remaining_qty)

-- `_unrealized_pnl`: dust is skipped, and a mark is looked up under both spellings.
unfoldable pub unrealized : AgentId → (String → Option ℕ) → List Lot → ℤ
unrealized agent_id mark_prices [] = pos 0
unrealized agent_id mark_prices (lot ∷ lots) =
    (if lot.agent_id == agent_id
        && (not lot.is_closed && leb dust_notional_usd (lot.remaining_qty * lot.entry_price))
      then paper_profit lot
          (or_else (mark_prices (normalize_symbol lot.symbol)) (mark_prices lot.symbol))
      else pos 0)
    +ℤ unrealized agent_id mark_prices lots

-- `lot.exit_date or date.min`
abbrev pub exit_key : Option ℕ → ℕ
exit_key none = 0
exit_key (some day) = suc day

pub insert_by_exit : Lot → List Lot → List Lot
insert_by_exit x [] = x ∷ []
insert_by_exit x (y ∷ ys) =
    if leb (exit_key x.exit_date) (exit_key y.exit_date)
    then x ∷ y ∷ ys
    else y ∷ insert_by_exit x ys

pub sort_by_exit : List Lot → List Lot
sort_by_exit [] = []
sort_by_exit (x ∷ xs) = insert_by_exit x (sort_by_exit xs)

abbrev pub count_loss : ℕ → Option ℤ → ℕ
count_loss n none = n
count_loss n (some pnl) = if ltb_ℤ pnl (pos 0) then n + 1 else 0

pub count_losses : ℕ → List Lot → ℕ
count_losses n [] = n
count_losses n (lot ∷ lots) = count_losses (count_loss n (realized_pnl lot)) lots

-- `_replay_consecutive_losses`
unfoldable pub replay_consecutive_losses : AgentId → List Lot → ℕ
unfolding sort_by_exit insert_by_exit count_losses
replay_consecutive_losses agent_id lots =
    count_losses 0 (sort_by_exit (keep (λ lot. lot.agent_id == agent_id && lot.is_closed) lots))
