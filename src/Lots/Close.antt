-- ===== src/Lots/Close.antt =====
-- `close_lots`: what a sale does to the open quantities of a ledger.
use multi_agent_llm_trading.Prelude.{
  ℕ, ◌+◌, ◌≤◌, ◌<◌, ◌≡◌, ◌↔◌, String, none, some, List, keep, arith, nat_eq, string_eq, ap,
}
use multi_agent_llm_trading.Types.{
  AgentId, agent_id_eq, Fill, Lot, LotMethod, OrderSide, normalize_symbol,
}
use multi_agent_llm_trading.Lots.{
  LotLedger, values, is_candidate, sum_remaining, consume, store_lots, candidates, close_lots,
  total_open_qty,
}
use multi_agent_llm_trading.Lots.Consume.{
  write_off, IsDust, write_off-IsDust, consume-sum_remaining, ClosedButLast, consume-ClosedButLast,
}
use multi_agent_llm_trading.Lots.Sorting.{IsSorted, sort_lots-IsSorted}
use multi_agent_llm_trading.Lots.Ledger.{IsKeyed, total, open_weight, total-store_lots}
use multi_agent_llm_trading.Lots.Positions.{
  sum_over-position, sum_over-consume, sum_over-other, sum_over-consume_other,
  candidates-IsPosition, candidates-Stored, candidates-Distinct, sum_remaining-of_candidates,
  total_open_qty-total,
}

-- A sale is refused exactly when it asks for more than is open, by either form of the symbol.
pub close_lots-none_iff :
    (a : AgentId) (s : String) (q : ℕ) (f : Fill) (m : LotMethod) (l : LotLedger)
    → f.side ≡ OrderSide.sell
    → (close_lots a s q f m l ≡ none) ↔ (total_open_qty a s l < q)
unfolding close_lots
close_lots-none_iff a s q f m l sell =
    ground
      (arith, total_open_qty-total a s l, sum_remaining-of_candidates a (normalize_symbol s) m l)

-- What a sale that went through has done.
pub close_lots-some :
    (a : AgentId) (s : String) (q : ℕ) (f : Fill) (m : LotMethod) (l : LotLedger)
    (affected : List Lot) (l' : LotLedger)
    → close_lots a s q f m l ≡ some (affected, l')
    → let cands = candidates a (normalize_symbol s) m l in
      (affected ≡ consume f q cands)
      × (l'.lots ≡ store_lots (consume f q cands) l.lots)
      × (q ≤ sum_remaining cands)
unfolding close_lots
close_lots-some a s q f m l affected l' h = (ground arith, ground arith, ground arith)

-- A sale takes from the position exactly the quantity sold and what it writes off; the write-off of
-- the whole sale is worth less than a cent at the price of the sale.
pub close_lots-total_open_qty :
    (a : AgentId) (s : String) (q : ℕ) (f : Fill) (m : LotMethod) (l : LotLedger)
    (affected : List Lot) (l' : LotLedger)
    → IsKeyed l.lots
    → close_lots a s q f m l ≡ some (affected, l')
    → (dust : ℕ) × (total_open_qty a s l ≡ q + total_open_qty a s l' + dust) × IsDust f.price dust
close_lots-total_open_qty a s q f m l affected l' keyed h =
    let key = normalize_symbol s in
    let cands = candidates a key m l in
    let (_, lots, enough) = close_lots-some a s q f m l affected l' h in
    let stored =
      total-store_lots (open_weight a key) f q cands l.lots (candidates-Stored a key m l keyed)
        (candidates-Distinct a key m l keyed) in
    let before = sum_over-position a key cands (candidates-IsPosition a key m l keyed) in
    let after = sum_over-consume a key f q cands (candidates-IsPosition a key m l keyed) in
    let sold = consume-sum_remaining f q cands enough in
    (
      write_off f q cands,
      omega (
        arith,
        total_open_qty-total a s l,
        total_open_qty-total a s l',
        ap (total (open_weight a key)) lots,
        sum_remaining-of_candidates a key m l,
      ),
      write_off-IsDust f q cands,
    )

-- Every other position, of another agent or in another symbol, keeps its open quantity.
pub close_lots-other_position :
    (a a' : AgentId) (s s' : String) (q : ℕ) (f : Fill) (m : LotMethod) (l : LotLedger)
    (affected : List Lot) (l' : LotLedger)
    → IsKeyed l.lots
    → close_lots a s q f m l ≡ some (affected, l')
    → ¬ ((a' ≡ a) × (normalize_symbol s' ≡ normalize_symbol s))
    → total_open_qty a' s' l' ≡ total_open_qty a' s' l
close_lots-other_position a a' s s' q f m l affected l' keyed h ne =
    let key = normalize_symbol s in
    let key' = normalize_symbol s' in
    let cands = candidates a key m l in
    let (_, lots, enough) = close_lots-some a s q f m l affected l' h in
    let stored =
      total-store_lots (open_weight a' key') f q cands l.lots (candidates-Stored a key m l keyed)
        (candidates-Distinct a key m l keyed) in
    let before = sum_over-other a a' key key' ne cands (candidates-IsPosition a key m l keyed) in
    let after =
      sum_over-consume_other a a' key key' ne f q cands (candidates-IsPosition a key m l keyed) in
    omega (
      arith,
      total_open_qty-total a' s' l,
      total_open_qty-total a' s' l',
      ap (total (open_weight a' key')) lots,
    )

-- A sale consumes the candidates from the front, which FIFO orders by entry date and LIFO by entry
-- date backwards: every lot that it touches but the last is closed and empty.
pub close_lots_order :
    (a : AgentId) (s : String) (q : ℕ) (f : Fill) (m : LotMethod) (l : LotLedger)
    (affected : List Lot) (l' : LotLedger)
    → close_lots a s q f m l ≡ some (affected, l')
    → let cands = candidates a (normalize_symbol s) m l in
      IsSorted m cands × (affected ≡ consume f q cands) × ClosedButLast affected
unfolding candidates
close_lots_order a s q f m l affected l' h =
    let cands = candidates a (normalize_symbol s) m l in
    let same = (close_lots-some a s q f m l affected l' h).0 in
    (
      sort_lots-IsSorted m (keep (is_candidate a (normalize_symbol s)) (values l.lots)),
      same,
      rw same (consume-ClosedButLast f q cands),
    )
