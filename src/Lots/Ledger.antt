-- ===== src/Lots/Ledger.antt =====
-- Sums over the lots of a ledger, and how a write to it changes them.
use multi_agent_llm_trading.Prelude.{
  ℕ, ◌+◌, ◌-◌, ◌≡◌, ◌≢◌, refl, inl, inr, Bool, true, String, none, some, List, [], ◌∷◌, ◌++◌, min,
  keep, arith, All, Bool-cases, eqb, nat_eq, if◌then◌else◌, ◌∙◌,
}
use multi_agent_llm_trading.Prelude.Dict.{Dict, lookup, insert, lookup-insert_ne}
use multi_agent_llm_trading.Types.{AgentId, Fill, Lot}
use multi_agent_llm_trading.Lots.{
  values, is_open_for, is_candidate, sum_remaining, consume, consume_lot, store_lots,
}
use multi_agent_llm_trading.Lots.Consume.{untouched}
use multi_agent_llm_trading.Lots.Sorting.{Distinct}

-- Every lot stands under its own id, once.
abbrev pub IsKeyed : Dict ℕ Lot → Type 0
IsKeyed [] = Unit
IsKeyed ((k, lot) ∷ d) = (k ≡ lot.id) × All (λ x. x.id ≢ lot.id) (values d) × IsKeyed d

-- Each of the lots stands in the dict as it is.
abbrev pub Stored : Dict ℕ Lot → List Lot → Type 0
Stored d = All (λ c. lookup c.id d ≡ some c)

Stored-insert :
    (c v : Lot) (cs : List Lot) (d : Dict ℕ Lot)
    → All (λ x. x.id ≢ c.id) cs
    → Stored d cs
    → Stored (insert c.id v d) cs
Stored-insert c v [] d ne st = tt
Stored-insert c v (x ∷ cs) d ne st =
    (lookup-insert_ne x.id c.id v d ne.0 ∙ st.0, Stored-insert c v cs d ne.1 st.1)

Stored-skip :
    (k : ℕ) (lot : Lot) (d : Dict ℕ Lot) (cs : List Lot)
    → k ≡ lot.id
    → All (λ x. x.id ≢ lot.id) cs
    → Stored d cs
    → Stored ((k, lot) ∷ d) cs
Stored-skip k lot d [] e ne st = tt
Stored-skip k lot d (c ∷ cs) e ne st =
    (ground (arith, ne.0, st.0), Stored-skip k lot d cs e ne.1 st.1)

pub values-Stored : (d : Dict ℕ Lot) → IsKeyed d → Stored d (values d)
values-Stored [] h = tt
values-Stored ((k, lot) ∷ d) h =
    (ground (arith, h.0), Stored-skip k lot d (values d) h.0 h.1 (values-Stored d h.2))

pub values-Distinct : (d : Dict ℕ Lot) → IsKeyed d → Distinct (values d)
values-Distinct [] h = tt
values-Distinct ((k, lot) ∷ d) h = (h.1, values-Distinct d h.2)

module _ (w : Lot → ℕ) where
  unfoldable pub total : Dict ℕ Lot → ℕ
  total [] = 0
  total ((_, lot) ∷ d) = w lot + total d

  unfoldable pub sum_over : List Lot → ℕ
  sum_over [] = 0
  sum_over (lot ∷ lots) = w lot + sum_over lots

  pub total-insert :
      (k : ℕ) (v old : Lot) (d : Dict ℕ Lot)
      → lookup k d ≡ some old
      → total (insert k v d) + w old ≡ total d + w v
  unfolding total
  total-insert k v old [] h = cc
  total-insert k v old ((j, x) ∷ d) h = ground (arith, total-insert k v old d)

  pub total-insert_new :
      (k : ℕ) (v : Lot) (d : Dict ℕ Lot) → lookup k d ≡ none → total (insert k v d) ≡ total d + w v
  unfolding total
  total-insert_new k v [] h = omega arith
  total-insert_new k v ((j, x) ∷ d) h = ground (arith, total-insert_new k v d)

  -- A sale over stored candidates changes a sum over the ledger as it changes the sum over them.
  pub total-store_lots :
      (f : Fill) (q : ℕ) (cs : List Lot) (d : Dict ℕ Lot)
      → All (λ c. lookup c.id d ≡ some c) cs
      → Distinct cs
      → total (store_lots (consume f q cs) d) + sum_over cs
        ≡ total d + sum_over (consume f q cs ++ untouched q cs)
  unfolding consume store_lots untouched sum_over total
  total-store_lots f q [] d st dis = omega arith
  total-store_lots f q (c ∷ cs) d st dis = elim (Bool-cases (eqb q 0)) [
    | inl done ↦ rw done (omega arith)
    | inr more ↦
        let c' = consume_lot f q c in
        let same : c'.id ≡ c.id = ground arith in
        let stored : Stored (insert c'.id c' d) cs = rw same (Stored-insert c c' cs d dis.0 st.1) in
        let step : total (insert c'.id c' d) + w c ≡ total d + w c' =
          rw same (total-insert c.id c' c d st.0) in
        let ih =
          total-store_lots f (q - min c.remaining_qty q) cs (insert c'.id c' d) stored dis.1 in
        rw more (omega arith)
  ]

-- The open quantity of a lot towards an agent's position in a symbol.
abbrev pub open_weight : AgentId → String → Lot → ℕ
open_weight a s lot = if is_open_for a s lot then lot.remaining_qty else 0

pub sum_remaining-open :
    (a : AgentId) (s : String) (d : Dict ℕ Lot)
    → sum_remaining (keep (is_open_for a s) (values d)) ≡ total (open_weight a s) d
unfolding sum_remaining total
sum_remaining-open a s [] = refl
sum_remaining-open a s ((k, lot) ∷ d) = ground (arith, sum_remaining-open a s d)

pub sum_remaining-candidates :
    (a : AgentId) (s : String) (d : Dict ℕ Lot)
    → sum_remaining (keep (is_candidate a s) (values d)) ≡ total (open_weight a s) d
unfolding sum_remaining total
sum_remaining-candidates a s [] = refl
sum_remaining-candidates a s ((k, lot) ∷ d) = ground (arith, sum_remaining-candidates a s d)

-- Filters keep what is stored and distinct.
module _ (P : Lot → Type 0) (test : Lot → Bool) where
  pub keep-All : (cs : List Lot) → All P cs → All P (keep test cs)
  keep-All [] h = tt
  keep-All (c ∷ cs) h = elim (Bool-cases (test c)) [
    | inl kept ↦ rw kept (h.0, keep-All cs h.1)
    | inr dropped ↦ rw dropped (keep-All cs h.1)
  ]

pub keep-Distinct : (test : Lot → Bool) (cs : List Lot) → Distinct cs → Distinct (keep test cs)
keep-Distinct test [] h = tt
keep-Distinct test (c ∷ cs) h = elim (Bool-cases (test c)) [
  | inl kept ↦ rw kept (keep-All (λ x. x.id ≢ c.id) test cs h.0, keep-Distinct test cs h.1)
  | inr dropped ↦ rw dropped (keep-Distinct test cs h.1)
]

pub keep_passes : (test : Lot → Bool) (cs : List Lot) → All (λ c. test c ≡ true) (keep test cs)
keep_passes test [] = tt
keep_passes test (c ∷ cs) = elim (Bool-cases (test c)) [
  | inl kept ↦ rw kept (kept, keep_passes test cs)
  | inr dropped ↦ rw dropped (keep_passes test cs)
]
