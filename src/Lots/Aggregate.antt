-- ===== src/Lots/Aggregate.antt =====
-- `open_qty_by_symbol`: the open quantities of an agent, by symbol.
use multi_agent_llm_trading.Prelude.{
  ℕ, ◌+◌, ◌≡◌, ◌≢◌, refl, ◌∙◌, inl, inr, Bool, not, ◌&&◌, String, Option, none, some, List, [], ◌∷◌,
  foldl, keep, arith, string_eq, ◌==◌, ltb, if◌then◌else◌, Bool-cases, eq_of_beq, beq_refl,
}
use multi_agent_llm_trading.Prelude.Dict.{
  Dict, lookup, insert, lookup-insert_self, lookup-insert_ne,
}
use multi_agent_llm_trading.Types.{AgentId, agent_id_eq, Lot, normalize_symbol}
use multi_agent_llm_trading.Lots.{
  LotLedger, values, total_open_qty, open_lots, is_open_for, sum_remaining,
}

-- `out.get(symbol, 0)`
abbrev pub qty_or_zero : Option ℕ → ℕ
qty_or_zero none = 0
qty_or_zero (some q) = q

abbrev pub is_open_of : AgentId → Lot → Bool
is_open_of agent_id lot = lot.agent_id == agent_id && not lot.is_closed

-- One round of the loop.
abbrev pub add_lot : AgentId → Dict String ℕ → Lot → Dict String ℕ
add_lot agent_id out lot =
    if is_open_of agent_id lot
    then insert lot.symbol (qty_or_zero (lookup lot.symbol out) + lot.remaining_qty) out
    else out

pub positive : Dict String ℕ → Dict String ℕ
positive = keep (λ e. ltb 0 e.1)

unfoldable pub open_qty_by_symbol : AgentId → LotLedger → Dict String ℕ
unfolding positive
open_qty_by_symbol agent_id l = positive (foldl (add_lot agent_id) [] (values l.lots))

weight : AgentId → String → Lot → ℕ
weight agent_id s lot =
    if lot.agent_id == agent_id && (lot.symbol == s && not lot.is_closed)
    then lot.remaining_qty
    else 0

sum_weights : AgentId → String → List Lot → ℕ
sum_weights agent_id s [] = 0
sum_weights agent_id s (lot ∷ lots) = weight agent_id s lot + sum_weights agent_id s lots

add_lot-lookup :
    (a : AgentId) (s : String) (out : Dict String ℕ) (lot : Lot)
    → qty_or_zero (lookup s (add_lot a out lot)) ≡ qty_or_zero (lookup s out) + weight a s lot
unfolding weight
add_lot-lookup a s out lot = elim (Bool-cases (lot.symbol == s)) [
  | inl same ↦
      let e : lot.symbol ≡ s = eq_of_beq lot.symbol s same in
      let v = qty_or_zero (lookup lot.symbol out) + lot.remaining_qty in
      ground (arith, lookup-insert_self lot.symbol v out)
  | inr other ↦
      let v = qty_or_zero (lookup lot.symbol out) + lot.remaining_qty in
      let apart : s ≢ lot.symbol = λ e. ground (arith, beq_refl s) in
      ground (arith, lookup-insert_ne s lot.symbol v out apart)
]

fold-lookup :
    (a : AgentId) (s : String) (lots : List Lot) (out : Dict String ℕ)
    → qty_or_zero (lookup s (foldl (add_lot a) out lots))
      ≡ qty_or_zero (lookup s out) + sum_weights a s lots
unfolding sum_weights
fold-lookup a s [] out = omega arith
fold-lookup a s (lot ∷ lots) out =
    omega (arith, fold-lookup a s lots (add_lot a out lot), add_lot-lookup a s out lot)

sum_weights-open :
    (a : AgentId) (s : String) (lots : List Lot)
    → sum_weights a s lots ≡ sum_remaining (keep (is_open_for a s) lots)
unfolding sum_weights weight sum_remaining
sum_weights-open a s [] = refl
sum_weights-open a s (lot ∷ lots) = ground (arith, sum_weights-open a s lots)

-- No two entries have one key.
abbrev IsUnique : Dict String ℕ → Type 0
IsUnique [] = Unit
IsUnique ((k, _) ∷ d) = (lookup k d ≡ none) × IsUnique d

insert-IsUnique : (k : String) (q : ℕ) (d : Dict String ℕ) → IsUnique d → IsUnique (insert k q d)
insert-IsUnique k q [] h = (refl, tt)
insert-IsUnique k q ((j, x) ∷ d) h = elim (Bool-cases (k == j)) [
  | inl same ↦ rw same h
  | inr other ↦
      let apart : j ≢ k = λ e. ground (arith, beq_refl j) in
      rw other (lookup-insert_ne j k q d apart ∙ h.0, insert-IsUnique k q d h.1)
]

add_lot-IsUnique :
    (a : AgentId) (out : Dict String ℕ) (lot : Lot) → IsUnique out → IsUnique (add_lot a out lot)
add_lot-IsUnique a out lot h = elim (Bool-cases (is_open_of a lot)) [
  | inl mine ↦
      rw mine
        (insert-IsUnique lot.symbol (qty_or_zero (lookup lot.symbol out) + lot.remaining_qty) out h)
  | inr other ↦ rw other h
]

fold-IsUnique :
    (a : AgentId) (lots : List Lot) (out : Dict String ℕ)
    → IsUnique out
    → IsUnique (foldl (add_lot a) out lots)
fold-IsUnique a [] out h = h
fold-IsUnique a (lot ∷ lots) out h =
    fold-IsUnique a lots (add_lot a out lot) (add_lot-IsUnique a out lot h)

positive-absent :
    (s : String) (d : Dict String ℕ) → lookup s d ≡ none → lookup s (positive d) ≡ none
unfolding positive
positive-absent s [] h = refl
positive-absent s ((k, q) ∷ d) h = ground (arith, positive-absent s d)

positive-lookup :
    (s : String) (d : Dict String ℕ)
    → IsUnique d
    → qty_or_zero (lookup s (positive d)) ≡ qty_or_zero (lookup s d)
unfolding positive
positive-lookup s [] h = refl
positive-lookup s ((k, q) ∷ d) h =
    ground (arith, positive-lookup s d h.1, positive-absent s d, eq_of_beq s k)

-- The quantity that the aggregate gives for a normalized symbol, nothing if it has no entry, is the
-- one that total_open_qty counts.
pub open_qty_by_symbol-total_open_qty :
    (a : AgentId) (s : String) (l : LotLedger)
    → normalize_symbol s ≡ s
    → qty_or_zero (lookup s (open_qty_by_symbol a l)) ≡ total_open_qty a s l
unfolding open_qty_by_symbol total_open_qty open_lots positive
open_qty_by_symbol-total_open_qty a s l h =
    let lots = values l.lots in
    positive-lookup s (foldl (add_lot a) [] lots) (fold-IsUnique a lots [] tt)
    ∙ fold-lookup a s lots []
    ∙ rw h (omega (arith, sum_weights-open a s lots))
