-- ===== src/Risk/Exits.antt =====
-- Exits through the gate, and the order of its last two checks.
use multi_agent_llm_trading.Prelude.{
  ℕ, ◌≡◌, ◌≢◌, true, false, not, none, some, List, arith, if◌then◌else◌,
}
use multi_agent_llm_trading.Prelude.Int.{pos, ◌≤ℤ◌, ◌<ℤ◌, +ℤ_parts}
use multi_agent_llm_trading.Types.{Action, Sleeve, sleeve_eq, Intent, Position, AgentState, over_ℤ}
use multi_agent_llm_trading.KillSwitch.{is_agent_benched}
use multi_agent_llm_trading.Risk.Policy.{
  is_opening, is_closing, options_max_sleeve_fraction, agent_single_name_cap,
}
use multi_agent_llm_trading.Risk.Checks.{
  check_kill_switch, check_forced_cash, check_letf, check_options, options_value,
}
use multi_agent_llm_trading.Risk.Gate.{
  RiskGate, check_intent, past_bench, before_rotation, after_rotation, weigh,
}

closing_not_opening : (a : Action) → is_closing a ≡ true → is_opening a ≡ false
closing_not_opening a h = ground arith

module _ (intent : Intent) (st : AgentState) (ts : ℕ) (g : RiskGate)
    (closing : is_closing intent.action ≡ true) where
  switch-closing : check_kill_switch intent g.kill ≡ none
  unfolding check_kill_switch
  switch-closing = let no_entry = closing_not_opening intent.action closing in ground arith

  before-closing : before_rotation intent st ts g ≡ none
  unfolding before_rotation check_forced_cash check_letf
  before-closing = let no_entry = closing_not_opening intent.action closing in ground arith

  weigh-closing : (gross : ℕ) → (weigh intent gross).allowed ≡ true
  unfolding weigh
  weigh-closing gross = let no_entry = closing_not_opening intent.action closing in ground arith

  past_bench-closing :
      (gross : ℕ) (positions : List Position)
      → (past_bench intent st gross positions ts g).0.allowed
        ≡ (elim (after_rotation intent st positions) [ none ↦ true | some _ ↦ false ])
  unfolding past_bench
  past_bench-closing gross positions =
      let no_entry = closing_not_opening intent.action closing in
      ground (arith, before-closing, weigh-closing gross)

after_rotation-plain :
    (intent : Intent) (st : AgentState) (positions : List Position)
    → intent.sleeve ≢ Sleeve.options
    → after_rotation intent st positions ≡ none
unfolding after_rotation
after_rotation-plain intent st positions h = ground arith

after_rotation-exposed :
    (intent : Intent) (st : AgentState) (positions : List Position)
    → intent.sleeve ≡ Sleeve.options
    → pos 0 <ℤ st.sleeve_equity
    → pos 0 ≤ℤ intent.target_weight
    → pos options_max_sleeve_fraction
      <ℤ over_ℤ (options_value intent.agent_id positions) st.sleeve_equity
    → after_rotation intent st positions ≢ none
unfolding after_rotation check_options
after_rotation-exposed intent st positions o e w exposed h =
    let fraction = over_ℤ (options_value intent.agent_id positions) st.sleeve_equity in
    let sum = +ℤ_parts fraction intent.target_weight in ground arith

module _ (intent : Intent) (st : AgentState) (gross : ℕ) (positions : List Position) (ts : ℕ)
    (g : RiskGate) where
  check_intent-closing :
      is_closing intent.action ≡ true
      → (check_intent intent st gross positions ts g).0.allowed ≡ (
          if (is_agent_benched st.agent_id ts g.kill).0
          then false
          else elim (after_rotation intent st positions) [ none ↦ true | some _ ↦ false ])
  unfolding check_intent
  check_intent-closing closing = ground (
    arith,
    switch-closing intent st ts g closing,
    past_bench-closing intent st ts (record g { kill = (is_agent_benched st.agent_id ts g.kill).1 })
        closing gross positions,
  )

  -- A sale or a close outside options is allowed exactly when the agent is not benched, in every
  -- state of the kill switch, liquidation included.
  pub exit_allowed :
      is_closing intent.action ≡ true
      → intent.sleeve ≢ Sleeve.options
      → (check_intent intent st gross positions ts g).0.allowed
        ≡ not (is_agent_benched st.agent_id ts g.kill).0
  exit_allowed closing plain =
      ground (arith, check_intent-closing closing, after_rotation-plain intent st positions plain)

  -- While an agent's options are worth more than a fifth of its sleeve, whose equity is above zero,
  -- no sale and no close in options with a target weight of zero or more is allowed.
  pub options_exit_refused :
      is_closing intent.action ≡ true
      → intent.sleeve ≡ Sleeve.options
      → pos 0 <ℤ st.sleeve_equity
      → pos 0 ≤ℤ intent.target_weight
      → pos options_max_sleeve_fraction
        <ℤ over_ℤ (options_value intent.agent_id positions) st.sleeve_equity
      → (check_intent intent st gross positions ts g).0.allowed ≡ false
  options_exit_refused closing options e w exposed = ground (
    arith,
    check_intent-closing closing,
    after_rotation-exposed intent st positions options e w exposed,
  )

  -- A weight above the cap of its agent is cut, and not held against the gross: the decision is the
  -- same for every gross cap, zero included.
  pub cut_weight_skips_gross :
      (gross' : ℕ)
      → pos (agent_single_name_cap intent.agent_id) <ℤ intent.target_weight
      → check_intent intent st gross positions ts g ≡ check_intent intent st gross' positions ts g
  unfolding check_intent past_bench weigh
  cut_weight_skips_gross gross' above = ground arith
