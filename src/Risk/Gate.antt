-- ===== src/Risk/Gate.antt =====
-- The gate: its state, `check_intent`, the record of LETF openings and the daily auto-liquidation.
use multi_agent_llm_trading.Prelude.{
  ℕ, ◌+◌, Bool, ◌&&◌, String, Option, none, some, List, length, keep, push, map, string_eq, ◌==◌,
  leb, eqb, if◌then◌else◌,
}
use multi_agent_llm_trading.Prelude.Int.{pos, ltb_ℤ}
use multi_agent_llm_trading.Types.{
  AgentId, agent_id_eq, Sleeve, sleeve_eq, Intent, Position, AgentState, date_of,
}
use multi_agent_llm_trading.KillSwitch.{KillSwitchEngine, is_agent_benched}
use multi_agent_llm_trading.Tax.{WashSaleRecord}
use multi_agent_llm_trading.Lots.{LotLedger, open_lots}
use multi_agent_llm_trading.Risk.Policy.{
  Veto, RiskDecision, refuse, permit, benched, letf_rotation, zero_gross, is_opening, is_letf,
  category_of, agent_single_name_cap, letf_rotation_window_days, letf_rotation_threshold,
}
use multi_agent_llm_trading.Risk.Checks.{
  first, check_kill_switch, check_forced_cash, check_wash_sale, check_letf, check_options,
  check_options_structure, days_held, is_overheld,
}

-- `_LETFActivityRecord`
pub record LetfActivityRecord : Type 0 where
  pub agent_id : AgentId
  pub category : String
  pub action_date : ℕ

-- `LeverageRotationFlagEvent`
pub record LeverageRotationFlag : Type 0 where
  pub agent_id : AgentId
  pub symbol : String
  pub category : String
  pub reopen_count : ℕ

-- `event_bus` holds what has been published, `none` where there is no bus.
pub record RiskGate : Type 0 where
  pub kill : KillSwitchEngine
  pub wash : List WashSaleRecord
  pub lots : LotLedger
  pub event_bus : Option (List LeverageRotationFlag)
  pub letf_activity : List LetfActivityRecord

abbrev pub is_recent : AgentId → String → ℕ → LetfActivityRecord → Bool
is_recent agent_id category today rec =
    rec.agent_id == agent_id
    && (rec.category == category && leb today (rec.action_date + letf_rotation_window_days))

-- The sum in `_check_letf_rotation`.
unfoldable pub reopen_count : AgentId → String → ℕ → List LetfActivityRecord → ℕ
reopen_count agent_id category today activity =
    length (keep (is_recent agent_id category today) activity)

abbrev pub publish_flag : LeverageRotationFlag → RiskGate → RiskGate
publish_flag flag g = record g {
  event_bus = elim g.event_bus [ none ↦ none | some flags ↦ some (push flags flag) ];
}

abbrev rotation_in : Intent → ℕ → Option String → RiskGate → Option Veto × RiskGate
rotation_in intent today none g = (none, g)
rotation_in intent today (some category) g =
    let count = reopen_count intent.agent_id category today g.letf_activity in
    let flag : LeverageRotationFlag = record {
      agent_id = intent.agent_id;
      symbol = intent.symbol;
      category = category;
      reopen_count = count;
    } in
    if leb letf_rotation_threshold count
    then (some (letf_rotation intent.symbol category count), publish_flag flag g)
    else (none, g)

-- 7b: `_check_letf_rotation`.
unfoldable pub check_letf_rotation : Intent → ℕ → RiskGate → Option Veto × RiskGate
check_letf_rotation intent ts g = rotation_in intent (date_of ts) (category_of intent.symbol) g

-- Whether the LETF rules look at an intent.
abbrev pub is_letf_intent : Intent → Bool
is_letf_intent intent = intent.sleeve == Sleeve.equity && is_letf intent.symbol

-- 4 to 7.
unfoldable pub before_rotation : Intent → AgentState → ℕ → RiskGate → Option Veto
unfolding check_forced_cash check_wash_sale check_letf
before_rotation intent agent_state ts g = first (check_forced_cash intent agent_state) (
    first (if is_opening intent.action then check_wash_sale intent ts g.wash else none)
      (if is_letf_intent intent then check_letf intent ts g.lots else none))

-- 8 and 9.
unfoldable pub after_rotation : Intent → AgentState → List Position → Option Veto
unfolding check_options check_options_structure
after_rotation intent agent_state positions =
    if intent.sleeve == Sleeve.options
    then first (check_options intent positions agent_state.sleeve_equity)
        (if is_opening intent.action then check_options_structure intent else none)
    else none

-- 10 and 11: a weight above the cap is cut, and only one within it is held against the gross.
unfoldable pub weigh : Intent → ℕ → RiskDecision
weigh intent effective_gross =
    if ltb_ℤ (pos (agent_single_name_cap intent.agent_id)) intent.target_weight
    then permit (some (agent_single_name_cap intent.agent_id))
    else if eqb effective_gross 0 && is_opening intent.action
    then refuse zero_gross
    else permit none

abbrev weigh_or : Option Veto → Intent → ℕ → RiskDecision
weigh_or (some v) intent effective_gross = refuse v
weigh_or none intent effective_gross = weigh intent effective_gross

-- 8 to 11, past the rotation.
abbrev past_rotation :
    Option Veto × RiskGate → Intent → AgentState → ℕ → List Position → RiskDecision × RiskGate
past_rotation (some v, g) intent agent_state effective_gross positions = (refuse v, g)
past_rotation (none, g) intent agent_state effective_gross positions =
    (weigh_or (after_rotation intent agent_state positions) intent effective_gross, g)

-- 4 to 11, past the bench.
unfoldable pub past_bench :
    Intent → AgentState → ℕ → List Position → ℕ → RiskGate → RiskDecision × RiskGate
past_bench intent agent_state effective_gross positions ts g =
    elim (before_rotation intent agent_state ts g) [
      | some v ↦ (refuse v, g)
      | none ↦
          past_rotation
            (if is_letf_intent intent && is_opening intent.action
              then check_letf_rotation intent ts g
              else (none, g))
            intent agent_state effective_gross positions
    ]

-- The bench is looked at only past the kill switch; looking clears an expired one.
unfoldable pub check_intent :
    Intent → AgentState → ℕ → List Position → ℕ → RiskGate → RiskDecision × RiskGate
unfolding past_bench
check_intent intent agent_state effective_gross positions ts g =
    elim (check_kill_switch intent g.kill) [
      | some v ↦ (refuse v, g)
      | none ↦
          let (is_benched, kill') = is_agent_benched agent_state.agent_id ts g.kill in
          let g' = record g { kill = kill' } in
          if is_benched
          then (refuse (benched agent_state.agent_id), g')
          else past_bench intent agent_state effective_gross positions ts g'
    ]

unfoldable pub record_letf_open : AgentId → String → ℕ → RiskGate → RiskGate
record_letf_open agent_id symbol open_date g = elim (category_of symbol) [
  | none ↦ g
  | some category ↦ record g {
    letf_activity =
        push g.letf_activity
          (record { agent_id = agent_id; category = category; action_date = open_date });
  }
]

-- `record_letf_exit` does nothing.
abbrev pub record_letf_exit : AgentId → String → ℕ → RiskGate → RiskGate
record_letf_exit agent_id symbol exit_date g = g

abbrev pub must_liquidate : AgentId → ℕ → LotLedger → Position → Bool
must_liquidate agent_id today lots p =
    p.agent_id == agent_id
    && (is_letf p.symbol && is_overheld (days_held today (open_lots agent_id p.symbol lots)))

unfoldable pub check_letf_auto_liquidations : AgentId → List Position → ℕ → RiskGate → List String
check_letf_auto_liquidations agent_id positions ts g =
    map (λ p. p.symbol) (keep (must_liquidate agent_id (date_of ts) g.lots) positions)
