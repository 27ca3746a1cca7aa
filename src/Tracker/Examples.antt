-- ===== src/Tracker/Examples.antt =====
-- The tracker at a concrete record.
use multi_agent_llm_trading.Prelude.{
  ℕ, ◌≡◌, refl, true, false, none, some, List, [], ◌∷◌, arith, string_eq,
}
use multi_agent_llm_trading.Prelude.Int.{pos}
use multi_agent_llm_trading.Types.{AgentId, DrawdownBucket, OrderSide, Fill, percent}
use multi_agent_llm_trading.KillSwitch.{new_engine, is_agent_benched}
use multi_agent_llm_trading.Tracker.{AgentStateTracker, apply_fill, update_on_fill}
use multi_agent_llm_trading.Tracker.Record.{
  PerAgentRecord, first_record, row_of, is_loss, clear_avg_cost,
}
use multi_agent_llm_trading.Tracker.Bench.{fill_all, AreLosses, bench_mismatch}
use multi_agent_llm_trading.Tracker.Restart.{restart, restart-sale}

-- An agent that holds ten of SPY at 100.
abbrev holder : PerAgentRecord
holder = record (first_record (pos (percent 100000))) {
  avg_cost = ("SPY", percent 10000) ∷ [];
  open_qty = ("SPY", percent 1000) ∷ [];
  sizing_bucket = DrawdownBucket.red;
}

abbrev tracker : AgentStateTracker
tracker = record {
  kill = new_engine 300;
  ledger = record { lots = []; booked = []; db = none };
  default_equity = pos (percent 100000);
  records = λ _. holder;
  bus = some [];
  db = none;
}

abbrev saved : AgentStateTracker
saved = record tracker { db = some (λ _. some (row_of holder)) }

-- A sale of one at 90.
abbrev loss : Fill
loss = record {
  id = 5;
  order_id = 77;
  agent_id = AgentId.opus;
  symbol = "SPY";
  side = OrderSide.sell;
  qty = percent 100;
  price = percent 9000;
  timestamp = 2000;
  commission = 0;
  is_partial = false;
}

abbrev losses : List (ℕ × Fill)
losses = (1, loss) ∷ (2, loss) ∷ (3, loss) ∷ (4, loss) ∷ (5, loss) ∷ []

losses-AreLosses : AreLosses AgentId.opus losses tracker
unfolding update_on_fill apply_fill is_loss clear_avg_cost
losses-AreLosses = (
  refl,
  refl,
  refl,
  (refl, refl, refl, (refl, refl, refl, (refl, refl, refl, (refl, refl, refl, tt)))),
)

clean :
    tracker.kill.agent_records AgentId.opus
    ≡ record { consecutive_losses = 0; benched_until = none }
unfolding new_engine
clean = refl

bench_mismatch_example :
    (((fill_all losses tracker).records AgentId.opus).is_benched ≡ true)
    × ((is_agent_benched AgentId.opus 6 (fill_all losses tracker).kill).0 ≡ false)
bench_mismatch_example =
    bench_mismatch AgentId.opus losses tracker 6 losses-AreLosses refl clean (omega arith)
      (omega arith)

restart-sale_example :
    let t' = update_on_fill 9 loss (restart saved) in
    ((t'.records AgentId.opus).consecutive_losses ≡ 0)
    × ((t'.records AgentId.opus).is_benched ≡ false)
    × (t'.kill ≡ saved.kill)
restart-sale_example = restart-sale saved 9 loss refl refl
