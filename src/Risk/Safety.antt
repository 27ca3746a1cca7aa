-- ===== src/Risk/Safety.antt =====
-- What an intent that the gate allows has passed.
use multi_agent_llm_trading.Prelude.{
  ℕ, ◌<◌, ◌≡◌, ◌≢◌, true, false, String, none, some, List, arith, string_eq,
}
use multi_agent_llm_trading.Prelude.Int.{ℤ, pos, ◌+ℤ◌, ◌≤ℤ◌, ◌<ℤ◌}
use multi_agent_llm_trading.Types.{
  DrawdownBucket, drawdown_bucket_eq, Sleeve, sleeve_eq, order_side_eq, Intent, Position,
  AgentState, OrderSide, date_of, over_ℤ,
}
use multi_agent_llm_trading.KillSwitch.{KillSwitchEngine, can_open_new, is_agent_benched}
use multi_agent_llm_trading.Tax.{WashSaleRecord, is_blocked}
use multi_agent_llm_trading.Lots.{LotLedger, open_lots}
use multi_agent_llm_trading.Risk.Policy.{
  is_opening, proxy_of, category_of, options_max_sleeve_fraction, agent_single_name_cap,
}
use multi_agent_llm_trading.Risk.Checks.{
  check_kill_switch, check_forced_cash, check_wash_sale, check_letf, check_options,
  check_options_structure, days_held, is_overheld, options_value, all_on,
}
use multi_agent_llm_trading.Risk.Gate.{
  RiskGate, check_intent, past_bench, before_rotation, after_rotation, check_letf_rotation,
  is_letf_intent, reopen_count, weigh,
}

module _ (intent : Intent) (st : AgentState) (gross : ℕ) (positions : List Position) (ts : ℕ)
    (g : RiskGate) where
  -- The gate past the bench.
  abbrev unbenched : RiskGate
  unbenched = record g { kill = (is_agent_benched st.agent_id ts g.kill).1 }

  check_intent-allowed :
      (check_intent intent st gross positions ts g).0.allowed ≡ true
      → (check_kill_switch intent g.kill ≡ none)
        × ((is_agent_benched st.agent_id ts g.kill).0 ≡ false)
        × ((past_bench intent st gross positions ts unbenched).0.allowed ≡ true)
        × ((check_intent intent st gross positions ts g).0
            ≡ (past_bench intent st gross positions ts unbenched).0)
  unfolding check_intent
  check_intent-allowed h = ground arith

  past_bench-allowed :
      (past_bench intent st gross positions ts g).0.allowed ≡ true
      → (before_rotation intent st ts g ≡ none)
        × (is_letf_intent intent ≡ true
            → is_opening intent.action ≡ true
            → (check_letf_rotation intent ts g).0 ≡ none)
        × (after_rotation intent st positions ≡ none)
        × ((weigh intent gross).allowed ≡ true)
        × ((past_bench intent st gross positions ts g).0 ≡ weigh intent gross)
  unfolding past_bench
  past_bench-allowed h = ground arith

-- What an opening intent has met when it is allowed.
pub record MayOpen (intent : Intent) (st : AgentState) (gross : ℕ) (positions : List Position)
    (ts : ℕ) (g : RiskGate) : Type 0 where
  pub entries_open : can_open_new g.kill ≡ true
  pub not_benched : (is_agent_benched st.agent_id ts g.kill).0 ≡ false
  pub not_forced : st.drawdown_bucket ≢ DrawdownBucket.forced_cash
  pub not_washed : is_blocked intent.agent_id intent.symbol (date_of ts) g.wash ≡ false
  pub proxy_not_washed :
      (proxy : String)
      → proxy_of intent.symbol ≡ some proxy
      → is_blocked intent.agent_id proxy (date_of ts) g.wash ≡ false
  pub letf_not_overheld :
      is_letf_intent intent ≡ true
      → is_overheld (days_held (date_of ts) (open_lots intent.agent_id intent.symbol g.lots))
        ≡ false
  pub letf_not_rotating :
      (category : String)
      → is_letf_intent intent ≡ true
      → category_of intent.symbol ≡ some category
      → reopen_count intent.agent_id category (date_of ts) g.letf_activity < 3
  pub options_bounded :
      intent.sleeve ≡ Sleeve.options
      → st.sleeve_equity ≢ pos 0
      → over_ℤ (options_value intent.agent_id positions) st.sleeve_equity +ℤ intent.target_weight
        ≤ℤ pos options_max_sleeve_fraction
  pub options_two_sided :
      intent.sleeve ≡ Sleeve.options
      → (all_on OrderSide.buy intent.legs ≡ false) × (all_on OrderSide.sell intent.legs ≡ false)
  pub single_name_cut :
      pos (agent_single_name_cap intent.agent_id) <ℤ intent.target_weight
      → (check_intent intent st gross positions ts g).0.capped_weight
        ≡ some (agent_single_name_cap intent.agent_id)
  pub weight_kept :
      intent.target_weight ≤ℤ pos (agent_single_name_cap intent.agent_id)
      → ((check_intent intent st gross positions ts g).0.capped_weight ≡ none) × (gross ≢ 0)

kill_switch-open :
    (intent : Intent) (k : KillSwitchEngine)
    → check_kill_switch intent k ≡ none
    → is_opening intent.action ≡ true
    → can_open_new k ≡ true
unfolding check_kill_switch
kill_switch-open intent k h o = ground arith

wash_sale-open :
    (intent : Intent) (ts : ℕ) (wash : List WashSaleRecord)
    → check_wash_sale intent ts wash ≡ none
    → (is_blocked intent.agent_id intent.symbol (date_of ts) wash ≡ false)
      × ((proxy : String)
          → proxy_of intent.symbol ≡ some proxy
          → is_blocked intent.agent_id proxy (date_of ts) wash ≡ false)
unfolding check_wash_sale
wash_sale-open intent ts wash h = (ground arith, λ proxy p. ground arith)

letf-open :
    (intent : Intent) (ts : ℕ) (lots : LotLedger)
    → check_letf intent ts lots ≡ none
    → is_opening intent.action ≡ true
    → is_overheld (days_held (date_of ts) (open_lots intent.agent_id intent.symbol lots)) ≡ false
unfolding check_letf
letf-open intent ts lots h o = ground arith

rotation-open :
    (intent : Intent) (ts : ℕ) (g : RiskGate) (category : String)
    → (check_letf_rotation intent ts g).0 ≡ none
    → category_of intent.symbol ≡ some category
    → reopen_count intent.agent_id category (date_of ts) g.letf_activity < 3
unfolding check_letf_rotation
rotation-open intent ts g category h c = ground arith

options-open :
    (intent : Intent) (positions : List Position) (equity : ℤ)
    → check_options intent positions equity ≡ none
    → equity ≢ pos 0
    → over_ℤ (options_value intent.agent_id positions) equity +ℤ intent.target_weight
      ≤ℤ pos options_max_sleeve_fraction
unfolding check_options
options-open intent positions equity h e = ground arith

module _ (intent : Intent) (st : AgentState) (ts : ℕ) (g : RiskGate)
    (opening : is_opening intent.action ≡ true) where
  before_rotation-open :
      before_rotation intent st ts g ≡ none
      → (st.drawdown_bucket ≢ DrawdownBucket.forced_cash)
        × (check_wash_sale intent ts g.wash ≡ none)
        × (is_letf_intent intent ≡ true → check_letf intent ts g.lots ≡ none)
  unfolding before_rotation check_forced_cash
  before_rotation-open h = (λ e. ground arith, ground arith, λ l. ground arith)

after_rotation-open :
    (intent : Intent) (st : AgentState) (positions : List Position)
    → after_rotation intent st positions ≡ none
    → intent.sleeve ≡ Sleeve.options
    → is_opening intent.action ≡ true
    → (check_options intent positions st.sleeve_equity ≡ none)
      × (check_options_structure intent ≡ none)
unfolding after_rotation
after_rotation-open intent st positions h o opening = ground arith

structure-open :
    (intent : Intent)
    → check_options_structure intent ≡ none
    → (all_on OrderSide.buy intent.legs ≡ false) × (all_on OrderSide.sell intent.legs ≡ false)
unfolding check_options_structure
structure-open intent h = ground arith

weigh-open :
    (intent : Intent) (gross : ℕ)
    → (weigh intent gross).allowed ≡ true
    → is_opening intent.action ≡ true
    → (pos (agent_single_name_cap intent.agent_id) <ℤ intent.target_weight
        → (weigh intent gross).capped_weight ≡ some (agent_single_name_cap intent.agent_id))
      × (intent.target_weight ≤ℤ pos (agent_single_name_cap intent.agent_id)
          → ((weigh intent gross).capped_weight ≡ none) × (gross ≢ 0))
unfolding weigh
weigh-open intent gross h opening =
    (λ above. ground arith, λ within. (ground arith, λ zero. ground arith))

-- An opening intent that the gate allows has passed the checks of the gate: the kill switch lets
-- entries through; the agent is neither benched nor in FORCED_CASH; neither the symbol nor its proxy
-- is in a wash-sale window; a symbol of the LETF list, in the equity sleeve, has no lot held too long
-- and fewer than three recent openings in its category; options have legs on both sides and, unless
-- the sleeve's equity is zero, stay within a fifth of it with the weight of the intent. A weight above the
-- cap of its agent comes back cut to the cap; one within it comes back as it is, and the gross cap is
-- not zero then. That a leveraged fund is on the list is no check of the gate.
pub check_intent-MayOpen :
    (intent : Intent) (st : AgentState) (gross : ℕ) (positions : List Position) (ts : ℕ)
    (g : RiskGate)
    → is_opening intent.action ≡ true
    → (check_intent intent st gross positions ts g).0.allowed ≡ true
    → MayOpen intent st gross positions ts g
check_intent-MayOpen intent st gross positions ts g opening h =
    let (switch, bench, past, decided) = check_intent-allowed intent st gross positions ts g h in
    let g' = unbenched intent st gross positions ts g in
    let (before, rotation, after, weighed, last) =
      past_bench-allowed intent st gross positions ts g' past in
    let (cash, wash, letf) = before_rotation-open intent st ts g' opening before in
    let (cut, kept) = weigh-open intent gross weighed opening in
    let (direct, proxy) = wash_sale-open intent ts g.wash wash in
    record {
      entries_open = kill_switch-open intent g.kill switch opening;
      not_benched = bench;
      not_forced = cash;
      not_washed = direct;
      proxy_not_washed = proxy;
      letf_not_overheld = λ l. letf-open intent ts g.lots (letf l) opening;
      letf_not_rotating =
          λ category l c. rotation-open intent ts g' category (rotation l opening) c;
      options_bounded = λ o e.
          options-open intent positions st.sleeve_equity
            (after_rotation-open intent st positions after o opening).0 e;
      options_two_sided =
          λ o. structure-open intent (after_rotation-open intent st positions after o opening).1;
      single_name_cut = λ above. rw (decided, last) (cut above);
      weight_kept = λ within. rw (decided, last) (kept within);
    }
