-- ===== src/Lots/Positions.antt =====
-- The candidates of a sale and the weight of each in an open position.
use multi_agent_llm_trading.Prelude.{
  ℕ, ◌-◌, ◌≡◌, refl, inl, inr, true, false, String, some, List, [], ◌∷◌, ◌++◌, min, keep, arith,
  All, Bool-cases, eqb, nat_eq, string_eq, ◌∙◌, eq_of_beq,
}
use multi_agent_llm_trading.Prelude.Dict.{lookup}
use multi_agent_llm_trading.Types.{AgentId, agent_id_eq, Fill, Lot, LotMethod, normalize_symbol}
use multi_agent_llm_trading.Lots.{
  LotLedger, values, is_open_for, is_candidate, sum_remaining, consume, consume_lot, candidates,
  total_open_qty,
}
use multi_agent_llm_trading.Lots.Consume.{untouched}
use multi_agent_llm_trading.Lots.Sorting.{
  Distinct, sort_lots-All, sort_lots-Distinct, sum_remaining-sort_lots,
}
use multi_agent_llm_trading.Lots.Ledger.{
  IsKeyed, total, sum_over, Stored, open_weight, sum_remaining-open, sum_remaining-candidates,
  values-Stored, values-Distinct, keep-All, keep-Distinct, keep_passes,
}

-- A lot of the position keeps its weight's meaning when it is consumed.
pub open_weight-consume_lot :
    (a : AgentId) (s : String) (f : Fill) (q : ℕ) (c : Lot)
    → is_candidate a s c ≡ true
    → (open_weight a s c ≡ c.remaining_qty)
      × (open_weight a s (consume_lot f q c) ≡ (consume_lot f q c).remaining_qty)
open_weight-consume_lot a s f q c h = ground arith

module _ (a : AgentId) (s : String) where
  unfoldable pub IsPosition : List Lot → Type 0
  IsPosition = All (λ c. is_candidate a s c ≡ true)

  pub sum_over-position :
      (cs : List Lot) → IsPosition cs → sum_over (open_weight a s) cs ≡ sum_remaining cs
  unfolding IsPosition sum_over sum_remaining
  sum_over-position [] h = refl
  sum_over-position (c ∷ cs) h = ground (arith, sum_over-position cs h.1)

  pub sum_over-consume :
      (f : Fill) (q : ℕ) (cs : List Lot)
      → IsPosition cs
      → sum_over (open_weight a s) (consume f q cs ++ untouched q cs)
        ≡ sum_remaining (consume f q cs ++ untouched q cs)
  unfolding IsPosition consume untouched sum_over sum_remaining
  sum_over-consume f q [] h = refl
  sum_over-consume f q (c ∷ cs) h = elim (Bool-cases (eqb q 0)) [
    | inl done ↦ rw done (sum_over-position (c ∷ cs) h)
    | inr more ↦
        let (before, after) = open_weight-consume_lot a s f q c h.0 in
        let ih = sum_over-consume f (q - min c.remaining_qty q) cs h.1 in rw more (omega arith)
  ]

-- A lot of one position is of no other.
other_position :
    (a a' : AgentId) (s s' : String) (c : Lot)
    → ¬ ((a' ≡ a) × (s' ≡ s))
    → is_candidate a s c ≡ true
    → is_open_for a' s' c ≡ false
other_position a a' s s' c ne h = elim (Bool-cases (is_open_for a' s' c)) [
  | inl both ↦ absurd (
      ne (
        ground (arith, eq_of_beq c.agent_id a', eq_of_beq c.agent_id a),
        ground (arith, eq_of_beq c.symbol s', eq_of_beq c.symbol s),
      ))
  | inr apart ↦ apart
]

other_weight :
    (a a' : AgentId) (s s' : String) (f : Fill) (q : ℕ) (c : Lot)
    → ¬ ((a' ≡ a) × (s' ≡ s))
    → is_candidate a s c ≡ true
    → (open_weight a' s' c ≡ 0) × (open_weight a' s' (consume_lot f q c) ≡ 0)
other_weight a a' s s' f q c ne h = ground (arith, other_position a a' s s' c ne h)

module _ (a a' : AgentId) (s s' : String) (ne : ¬ ((a' ≡ a) × (s' ≡ s))) where
  pub sum_over-other : (cs : List Lot) → IsPosition a s cs → sum_over (open_weight a' s') cs ≡ 0
  unfolding IsPosition sum_over
  sum_over-other [] h = refl
  sum_over-other (c ∷ cs) h =
      rw (other_position a a' s s' c ne h.0) (omega (arith, sum_over-other cs h.1))

  pub sum_over-consume_other :
      (f : Fill) (q : ℕ) (cs : List Lot)
      → IsPosition a s cs
      → sum_over (open_weight a' s') (consume f q cs ++ untouched q cs) ≡ 0
  unfolding IsPosition consume untouched sum_over
  sum_over-consume_other f q [] h = refl
  sum_over-consume_other f q (c ∷ cs) h = elim (Bool-cases (eqb q 0)) [
    | inl done ↦ rw done (sum_over-other (c ∷ cs) h)
    | inr more ↦
        let (before, after) = other_weight a a' s s' f q c ne h.0 in
        let ih = sum_over-consume_other f (q - min c.remaining_qty q) cs h.1 in
        rw more (omega arith)
  ]

-- The candidates of a sale: of the position, stored, distinct, and as much as the open quantity.
module _ (a : AgentId) (s : String) (m : LotMethod) (l : LotLedger) (keyed : IsKeyed l.lots) where
  pub candidates-IsPosition : IsPosition a s (candidates a s m l)
  unfolding candidates IsPosition
  candidates-IsPosition =
      sort_lots-All (λ c. is_candidate a s c ≡ true) m (keep (is_candidate a s) (values l.lots))
        (keep_passes (is_candidate a s) (values l.lots))

  pub candidates-Stored : Stored l.lots (candidates a s m l)
  unfolding candidates
  candidates-Stored =
      sort_lots-All (λ c. lookup c.id l.lots ≡ some c) m (keep (is_candidate a s) (values l.lots))
        (keep-All (λ c. lookup c.id l.lots ≡ some c) (is_candidate a s) (values l.lots)
          (values-Stored l.lots keyed))

  pub candidates-Distinct : Distinct (candidates a s m l)
  unfolding candidates
  candidates-Distinct =
      sort_lots-Distinct m (keep (is_candidate a s) (values l.lots))
        (keep-Distinct (is_candidate a s) (values l.lots) (values-Distinct l.lots keyed))

pub sum_remaining-of_candidates :
    (a : AgentId) (s : String) (m : LotMethod) (l : LotLedger)
    → sum_remaining (candidates a s m l) ≡ total (open_weight a s) l.lots
unfolding candidates
sum_remaining-of_candidates a s m l =
    sum_remaining-sort_lots m (keep (is_candidate a s) (values l.lots))
    ∙ sum_remaining-candidates a s l.lots

pub total_open_qty-total :
    (a : AgentId) (s : String) (l : LotLedger)
    → total_open_qty a s l ≡ total (open_weight a (normalize_symbol s)) l.lots
unfolding total_open_qty
total_open_qty-total a s l = sum_remaining-open a (normalize_symbol s) l.lots
