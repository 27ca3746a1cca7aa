-- ===== src/Risk/Examples.antt =====
-- The risk gate at concrete intents.
use multi_agent_llm_trading.Prelude.{ℕ, ◌≡◌, refl, inr, true, false, none, some, [], ◌∷◌, arith}
use multi_agent_llm_trading.Prelude.Int.{pos, ◌<ℤ◌}
use multi_agent_llm_trading.Types.{
  AgentId, AssetClass, Action, Sleeve, DrawdownBucket, Intent, Position, Lot, AgentState, percent,
  normalize_symbol, over, over_ℤ, times, div_half_even,
}
use multi_agent_llm_trading.KillSwitch.{new_engine, is_agent_benched}
use multi_agent_llm_trading.Tax.{record_sale, is_blocked}
use multi_agent_llm_trading.Lots.{open_lots}
use multi_agent_llm_trading.Risk.Policy.{is_letf, proxy_of, category_of}
use multi_agent_llm_trading.Risk.Checks.{
  check_kill_switch, check_forced_cash, check_wash_sale, check_letf, options_value,
}
use multi_agent_llm_trading.Risk.Gate.{
  RiskGate, check_intent, past_bench, before_rotation, after_rotation, weigh, check_letf_rotation,
  reopen_count,
}
use multi_agent_llm_trading.Risk.Safety.{MayOpen, check_intent-MayOpen}
use multi_agent_llm_trading.Risk.Windows.{record_sale-check_intent}
use multi_agent_llm_trading.Risk.Exits.{options_exit_refused, cut_weight_skips_gross}

-- Noon of day 30.
abbrev noon : ℕ
noon = 2635200000000

abbrev state : AgentState
state = record {
  agent_id = AgentId.haiku;
  sleeve_equity = pos (percent 100000);
  sleeve_peak_equity = percent 100000;
  drawdown_bucket = DrawdownBucket.normal;
  drawdown_bucket_entry_date = none;
  consecutive_losses = 0;
  is_benched = false;
  bench_until = none;
  day_trade_count = 0;
  orders_today = 0;
  last_memo_id = none;
}

abbrev buy : Intent
buy = record {
  id = 1;
  agent_id = AgentId.haiku;
  symbol = "TQQQ";
  action = Action.buy;
  target_weight = pos (percent 20);
  sleeve = Sleeve.equity;
  signal = "trend";
  conviction = pos 8;
  rationale = "";
  timestamp = noon;
  regime_observation = "";
  requires_approval = false;
  legs = [];
}

abbrev spread : Intent
spread = record buy {
  symbol = "SPY";
  sleeve = Sleeve.options;
  action = Action.close;
  target_weight = pos 0;
}

abbrev lot : Lot
lot = record {
  id = 1;
  agent_id = AgentId.haiku;
  symbol = "TQQQ";
  qty = 10;
  entry_price = 100;
  entry_date = 5;
  entry_fill_id = 7;
  remaining_qty = 10;
  exit_fill_id = none;
  exit_date = none;
  exit_price = none;
  is_closed = false;
}

abbrev sold : Lot
sold = record lot {
  symbol = "UPRO";
  remaining_qty = 0;
  exit_date = some 20;
  exit_price = some 90;
  is_closed = true;
}

abbrev other_sale : Lot
other_sale = record sold { symbol = "QQQ"; exit_date = some 25 }

abbrev letf_position : Position
letf_position = record {
  agent_id = AgentId.haiku;
  symbol = "TQQQ";
  qty = pos 10;
  avg_entry_price = 100;
  current_price = 100;
  asset_class = AssetClass.etf;
  sleeve = Sleeve.equity;
  as_of = noon;
}

-- Options worth 300 of a sleeve of 1000.
abbrev options_position : Position
options_position = record letf_position {
  symbol = "SPY";
  qty = pos (percent 10000);
  current_price = percent 300;
  asset_class = AssetClass.option;
  sleeve = Sleeve.options;
}

abbrev gate : RiskGate
gate = record {
  kill = new_engine 300;
  wash = [];
  lots = record { lots = []; booked = []; db = none };
  event_bus = none;
  letf_activity = [];
}

abbrev washed : RiskGate
washed = record gate { wash = record_sale other_sale (record_sale sold []) }

buy_allowed : (check_intent buy state (percent 100) [] noon gate).0.allowed ≡ true
unfolding check_intent check_kill_switch check_forced_cash check_wash_sale check_letf
    before_rotation after_rotation weigh check_letf_rotation new_engine is_agent_benched is_blocked
    open_lots normalize_symbol is_letf proxy_of category_of reopen_count past_bench
buy_allowed = refl

check_intent-MayOpen_example : MayOpen buy state (percent 100) [] noon gate
check_intent-MayOpen_example =
    check_intent-MayOpen buy state (percent 100) [] noon gate refl buy_allowed

tqqq_proxy : proxy_of "TQQQ" ≡ some "UPRO"
unfolding proxy_of
tqqq_proxy = refl

record_sale-check_intent_example :
    (check_intent buy state (percent 100) [] noon washed).0.allowed ≡ false
record_sale-check_intent_example =
    record_sale-check_intent sold 90 20 [] (other_sale ∷ []) buy state (percent 100) [] noon washed
      refl refl (omega arith) (omega arith) refl refl refl (inr tqqq_proxy) (omega arith)
      (omega arith)

tqqq_category : category_of "TQQQ" ≡ some "NDX_LONG_3X"
unfolding category_of
tqqq_category = refl

upro_category : category_of "UPRO" ≡ some "NDX_LONG_3X"
unfolding category_of
upro_category = refl

tqqq_letf : is_letf "TQQQ" ≡ true
unfolding is_letf
tqqq_letf = refl

exposed :
    pos (percent 20)
    <ℤ over_ℤ (options_value AgentId.haiku (options_position ∷ [])) state.sleeve_equity
unfolding over_ℤ over options_value times div_half_even
exposed = omega arith

options_exit_refused_example :
    (check_intent spread state (percent 100) (options_position ∷ []) noon gate).0.allowed ≡ false
options_exit_refused_example =
    options_exit_refused spread state (percent 100) (options_position ∷ []) noon gate refl refl
      (omega arith) (omega arith) exposed

cut_weight_skips_gross_example :
    check_intent (record buy { target_weight = pos (percent 40) }) state 0 [] noon gate
    ≡ check_intent
        (record buy { target_weight = pos (percent 40) })
        state
        (percent 100)
        []
        noon
        gate
cut_weight_skips_gross_example =
    cut_weight_skips_gross (record buy { target_weight = pos (percent 40) }) state 0 [] noon gate
      (percent 100) (omega arith)
