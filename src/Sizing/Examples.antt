-- ===== src/Sizing/Examples.antt =====
-- Leverage caps and volatility targets at concrete values.
use multi_agent_llm_trading.Prelude.{ℕ, ◌≤◌, ◌<◌, ◌≡◌, ◌↔◌, Option, none, some, List, [], ◌∷◌}
use multi_agent_llm_trading.Types.{AgentId, DrawdownBucket, VixBucket, percent}
use multi_agent_llm_trading.Sizing.{VolTargetSizer, effective_max_gross, max_master_capability}
use multi_agent_llm_trading.Sizing.Bounds.{effective_max_gross_bounds}

abbrev weights : AgentId → Option ℕ
weights _ = some (percent 120)

effective_max_gross_bounds_example :
    ((effective_max_gross weights AgentId.haiku (percent 120) VixBucket.stress DrawdownBucket.yellow
        ≡ none)
      ↔ (max_master_capability < percent 120))
    × ((gross : ℕ)
        → effective_max_gross weights AgentId.haiku
            (percent 120)
            VixBucket.stress
            DrawdownBucket.yellow
          ≡ some gross
        → (gross ≤ percent 450) × (DrawdownBucket.yellow ≡ DrawdownBucket.forced_cash → gross ≡ 0))
effective_max_gross_bounds_example =
    effective_max_gross_bounds weights AgentId.haiku (percent 120) VixBucket.stress
      DrawdownBucket.yellow

-- Two quiet days and a wild one.
abbrev vols : List ℕ
vols = percent 8 ∷ percent 9 ∷ percent 60 ∷ []

abbrev sizer : VolTargetSizer
sizer = record { target_vol = percent 20; prev_leverage = some (percent 150) }
