-- ===== src/FakeBroker/Fills.antt =====
-- execution/fake_broker.py: sums over the fills of FakeBroker's orders.
use multi_agent_llm_trading.Prelude.{
  ℕ, ◌+◌, ◌≡◌, String, none, some, List, [], ◌∷◌, ◌++◌, push, string_eq, ◌==◌, Bool-cases, inl, inr,
  arith,
}
use multi_agent_llm_trading.Prelude.Dict.{Dict, lookup, insert}
use multi_agent_llm_trading.Types.{Fill}
use multi_agent_llm_trading.FakeBroker.{BrokerOrder}
use multi_agent_llm_trading.FakeBroker.Orders.{fills_in}

module _ (weight : Fill → ℕ) where
  unfoldable pub total : List Fill → ℕ
  total [] = 0
  total (f ∷ fs) = weight f + total fs

  pub total-append : (xs ys : List Fill) → total (xs ++ ys) ≡ total xs + total ys
  unfolding total
  total-append [] ys = omega arith
  total-append (x ∷ xs) ys = omega (arith, total-append xs ys)

  pub total-push : (xs : List Fill) (x : Fill) → total (push xs x) ≡ total xs + weight x
  unfolding total
  total-push xs x = omega (arith, total-append xs (x ∷ []))

  -- A write to the record of an order moves the sum by what the record's own sum moves.
  pub total-insert_old :
      (k : String) (rec rec' : BrokerOrder) (d : Dict String BrokerOrder)
      → lookup k d ≡ some rec
      → total (fills_in (insert k rec' d)) + total rec.fills ≡ total (fills_in d) + total rec'.fills
  total-insert_old k rec rec' [] h = absurd (ground arith)
  total-insert_old k rec rec' ((j, r) ∷ d) h = elim (Bool-cases (k == j)) [
    | inl e ↦
        let same : r ≡ rec = ground arith in
        rw e (
          rw (← same) (
            omega (arith, total-append r.fills (fills_in d), total-append rec'.fills (fills_in d))))
    | inr e ↦
        let rest : lookup k d ≡ some rec = ground arith in
        rw e (
          omega (
            arith,
            total-append r.fills (fills_in d),
            total-append r.fills (fills_in (insert k rec' d)),
            total-insert_old k rec rec' d rest,
          ))
  ]

  pub total-insert_new :
      (k : String) (rec' : BrokerOrder) (d : Dict String BrokerOrder)
      → lookup k d ≡ none
      → total (fills_in (insert k rec' d)) ≡ total (fills_in d) + total rec'.fills
  unfolding total
  total-insert_new k rec' [] h = omega (arith, total-append rec'.fills [])
  total-insert_new k rec' ((j, r) ∷ d) h = elim (Bool-cases (k == j)) [
    | inl e ↦ absurd (ground arith)
    | inr e ↦
        let rest : lookup k d ≡ none = ground arith in
        rw e (
          omega (
            arith,
            total-append r.fills (fills_in d),
            total-append r.fills (fills_in (insert k rec' d)),
            total-insert_new k rec' d rest,
          ))
  ]
