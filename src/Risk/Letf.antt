-- ===== src/Risk/Letf.antt =====
-- The daily auto-liquidation of leveraged ETFs agrees with the check on entries.
use multi_agent_llm_trading.Prelude.{
  ℕ, ◌≡◌, ◌≢◌, ◌↔◌, true, String, none, List, [], ◌∷◌, map, keep, arith, string_eq, ◌==◌,
  Bool-cases, inl, inr, eq_of_beq,
}
use multi_agent_llm_trading.Types.{AgentId, agent_id_eq, Intent, Position, AgentState, date_of}
use multi_agent_llm_trading.Lots.{LotLedger, open_lots}
use multi_agent_llm_trading.Risk.Policy.{is_opening, is_letf, is_listed}
use multi_agent_llm_trading.Risk.Checks.{check_letf, days_held, is_overheld}
use multi_agent_llm_trading.Risk.Gate.{
  RiskGate, check_intent, is_letf_intent, must_liquidate, check_letf_auto_liquidations,
}
use multi_agent_llm_trading.Risk.Safety.{check_intent-MayOpen}

-- An agent's LETF position must go exactly when the check on entries would refuse to add to it.
pub check_letf-must_liquidate :
    (intent : Intent) (p : Position) (ts : ℕ) (lots : LotLedger)
    → is_opening intent.action ≡ true
    → intent.agent_id ≡ p.agent_id
    → intent.symbol ≡ p.symbol
    → is_letf p.symbol ≡ true
    → (check_letf intent ts lots ≢ none)
      ↔ (must_liquidate intent.agent_id (date_of ts) lots p ≡ true)
unfolding check_letf
check_letf-must_liquidate intent p ts lots opening agent symbol letf =
    (λ h. ground arith, λ h k. ground arith)

listed_liquidation :
    (a : AgentId) (today : ℕ) (lots : LotLedger) (s : String) (ps : List Position)
    → is_listed s (map (λ p. p.symbol) (keep (must_liquidate a today lots) ps)) ≡ true
    → (is_letf s ≡ true) × (is_overheld (days_held today (open_lots a s lots)) ≡ true)
unfolding is_listed
listed_liquidation a today lots s [] h = absurd (ground arith)
listed_liquidation a today lots s (p ∷ ps) h = elim (Bool-cases (must_liquidate a today lots p)) [
  | inl must ↦ elim (Bool-cases (s == p.symbol)) [
    | inl same ↦ let e : s ≡ p.symbol = eq_of_beq s p.symbol same in rw e (ground arith)
    | inr other ↦ listed_liquidation a today lots s ps (rw other at (rw must at h))
  ]
  | inr stays ↦ listed_liquidation a today lots s ps (rw stays at h)
]

-- A symbol that the auto-liquidation lists for an agent is one that the gate lets it open no more.
pub auto_liquidations-check_intent :
    (intent : Intent) (st : AgentState) (gross : ℕ) (positions : List Position) (ts : ℕ)
    (g : RiskGate)
    → is_opening intent.action ≡ true
    → is_letf_intent intent ≡ true
    → is_listed intent.symbol (check_letf_auto_liquidations intent.agent_id positions ts g) ≡ true
    → (check_intent intent st gross positions ts g).0.allowed ≢ true
unfolding check_letf_auto_liquidations
auto_liquidations-check_intent intent st gross positions ts g opening letf listed allowed =
    let open_ = check_intent-MayOpen intent st gross positions ts g opening allowed in
    let (_, over_) =
      listed_liquidation intent.agent_id (date_of ts) g.lots intent.symbol positions listed in
    let young = open_.letf_not_overheld letf in cc
