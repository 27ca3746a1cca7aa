-- ===== src/Risk/Policy.antt =====
-- The tables of the risk gate, the actions that open and close, and its decision.
use multi_agent_llm_trading.Prelude.{
  ℕ, Bool, true, false, String, Option, none, some, List, [], ◌∷◌, string_eq, ◌==◌, if◌then◌else◌,
}
use multi_agent_llm_trading.Prelude.Dict.{Dict, lookup}
use multi_agent_llm_trading.Prelude.Int.{ℤ}
use multi_agent_llm_trading.Types.{AgentId, Action, KillSwitchState, OrderSide, percent}

-- AGENT_SINGLE_NAME_CAPS
abbrev pub agent_single_name_cap : AgentId → ℕ
agent_single_name_cap AgentId.haiku = percent 25
agent_single_name_cap AgentId.sonnet = percent 12
agent_single_name_cap AgentId.opus = percent 18
agent_single_name_cap AgentId.manager = percent 30

-- LETF_WHITELIST
pub letf_whitelist : List String
letf_whitelist = "TQQQ" ∷ "SQQQ" ∷ "UPRO" ∷ "SPXU" ∷ "SOXL" ∷ "SOXS" ∷ "TMF" ∷ "TMV" ∷ []

unfoldable pub is_listed : String → List String → Bool
is_listed symbol [] = false
is_listed symbol (s ∷ ss) = if symbol == s then true else is_listed symbol ss

-- `symbol in LETF_WHITELIST`
unfoldable pub is_letf : String → Bool
unfolding letf_whitelist is_listed
is_letf symbol = is_listed symbol letf_whitelist

abbrev pub letf_max_hold_calendar_days : ℕ
letf_max_hold_calendar_days = 5

abbrev pub options_max_sleeve_fraction : ℕ
options_max_sleeve_fraction = percent 20

-- WASH_SALE_PROXIES
pub wash_sale_proxies : Dict String String
wash_sale_proxies =
    ("SPY", "IVV")
    ∷ ("IVV", "SPY")
    ∷ ("QQQ", "QQQM")
    ∷ ("QQQM", "QQQ")
    ∷ ("TQQQ", "UPRO")
    ∷ ("UPRO", "TQQQ")
    ∷ ("SQQQ", "SPXU")
    ∷ ("SPXU", "SQQQ")
    ∷ []

unfoldable pub proxy_of : String → Option String
unfolding wash_sale_proxies
proxy_of symbol = lookup symbol wash_sale_proxies

-- LETF_EQUIV_MAP
pub letf_equiv_map : Dict String String
letf_equiv_map =
    ("TQQQ", "NDX_LONG_3X")
    ∷ ("UPRO", "NDX_LONG_3X")
    ∷ ("SQQQ", "NDX_SHORT_3X")
    ∷ ("SPXU", "NDX_SHORT_3X")
    ∷ ("SOXL", "SOX_LONG_3X")
    ∷ ("SOXS", "SOX_SHORT_3X")
    ∷ ("TMF", "BOND_LONG_3X")
    ∷ ("TMV", "BOND_SHORT_3X")
    ∷ []

unfoldable pub category_of : String → Option String
unfolding letf_equiv_map
category_of symbol = lookup symbol letf_equiv_map

abbrev pub letf_rotation_window_days : ℕ
letf_rotation_window_days = 21

abbrev pub letf_rotation_threshold : ℕ
letf_rotation_threshold = 3

-- `intent.action in _OPENING_ACTIONS`, and the closing ones.
abbrev pub is_opening : Action → Bool
is_opening Action.buy = true
is_opening Action.rebalance_to = true
is_opening Action.sell = false
is_opening Action.close = false

abbrev pub is_closing : Action → Bool
is_closing Action.sell = true
is_closing Action.close = true
is_closing Action.buy = false
is_closing Action.rebalance_to = false

-- Why an intent is refused.
pub data Veto : Type 0 where
  liquidating : KillSwitchState → Veto
  entries_blocked : KillSwitchState → Veto
  benched : AgentId → Veto
  forced_cash : Veto
  wash_sale : (symbol : String) (days_left : ℕ) → Veto
  wash_sale_proxy : (symbol proxy : String) (days_left : ℕ) → Veto
  letf_held : (symbol : String) (days_held : ℕ) → Veto
  letf_rotation : (symbol category : String) (reopen_count : ℕ) → Veto
  options_exposure : (symbol : String) (new_fraction : ℤ) → Veto
  options_naked : (symbol : String) → Veto
  options_one_sided : (symbol : String) (side : OrderSide) → Veto
  zero_gross : Veto

pub record RiskDecision : Type 0 where
  pub allowed : Bool
  pub veto_reason : Option Veto
  pub capped_weight : Option ℕ

abbrev pub refuse : Veto → RiskDecision
refuse v = record { allowed = false; veto_reason = some v; capped_weight = none }

abbrev pub permit : Option ℕ → RiskDecision
permit capped = record { allowed = true; veto_reason = none; capped_weight = capped }
