-- ===== src/Tracker.antt =====
-- execution/agent_state_tracker.py: AgentStateTracker, the equity and the drawdown bucket of each
-- agent.
--
-- Every AgentId has a record, so `records` is a function. `db` is the optional SQLite table, a row
-- for an agent if it has one; `bus` holds what has been published, `none` where there is no bus.
-- The clock is an argument, and one reading of it serves a call. Equities may be negative. Profits
-- are summed exactly, in units of 10^-36, and rounded half to even to a unit of equity.
pub mod Pnl
pub mod Record
pub mod Recovery
pub mod Bench
pub mod Restart
mod Examples
use multi_agent_llm_trading.Prelude.{
  ℕ, ◌+◌, ◌-◌, ◌*◌, Bool, true, false, not, ◌&&◌, String, Option, none, some, List, [], ◌∷◌, keep,
  push, ltb, leb, eqb, nat_eq, string_eq, ◌==◌, if◌then◌else◌, max,
}
use multi_agent_llm_trading.Prelude.Int.{
  ℤ, pos, pos_part, neg_part, sub_ℕ, ◌+ℤ◌, ◌-ℤ◌, ltb_ℤ, leb_ℤ,
}
use multi_agent_llm_trading.Prelude.Dict.{Dict, lookup, insert}
use multi_agent_llm_trading.Types.{
  AgentId, agent_id_eq, DrawdownBucket, drawdown_bucket_eq, drawdown_bucket_code, OrderSide,
  order_side_eq, Fill, Lot, hour_us, date_of, over, div_half_even,
}
use multi_agent_llm_trading.KillSwitch.{
  KillSwitchEngine, record_agent_result, classify_drawdown, consecutive_loss_bench_trigger,
}
use multi_agent_llm_trading.Lots.{LotLedger, values}
use multi_agent_llm_trading.Tracker.Pnl.{realized, unrealized, to_units, replay_consecutive_losses}
use multi_agent_llm_trading.Tracker.Record.{
  PerAgentRecord, apply_bucket_with_recovery, clear_avg_cost, count_recovery, drawdown_of,
  first_record, has_tightened, is_loss, is_new_day, is_past, is_target, lift_bench, mark_equity,
  num_or_zero, pop, rebuild_record, recovery_days_required, row_of, settle, update_avg_cost,
}

pub data TrackerEvent : Type 0 where
  drawdown_ladder_fired : AgentId → ℕ → DrawdownBucket → TrackerEvent
  agent_benched : AgentId → ℕ → TrackerEvent

pub record AgentStateTracker : Type 0 where
  pub kill : KillSwitchEngine
  pub ledger : LotLedger
  pub default_equity : ℤ
  pub records : AgentId → PerAgentRecord
  pub bus : Option (List TrackerEvent)
  pub db : Option (AgentId → Option PerAgentRecord)

abbrev pub row_or_first : ℤ → Option PerAgentRecord → PerAgentRecord
row_or_first equity none = first_record equity
row_or_first equity (some rec) = rec

abbrev load_records : ℤ → Option (AgentId → Option PerAgentRecord) → AgentId → PerAgentRecord
load_records equity none agent_id = first_record equity
load_records equity (some table) agent_id = row_or_first equity (table agent_id)

-- `__init__`, on the table of the file if there is one.
unfoldable pub new_tracker :
    KillSwitchEngine
    → LotLedger
    → ℤ
    → Option (List TrackerEvent)
    → Option (AgentId → Option PerAgentRecord)
    → AgentStateTracker
new_tracker kill ledger default_equity bus db = record {
  kill = kill;
  ledger = ledger;
  default_equity = default_equity;
  records = load_records default_equity db;
  bus = bus;
  db = db;
}

-- `_maybe_persist`: INSERT OR REPLACE of a row for every agent.
abbrev pub maybe_persist : AgentStateTracker → AgentStateTracker
maybe_persist t = record t {
  db = elim t.db [ none ↦ none | some _ ↦ some (λ a. some (row_of (t.records a))) ];
}

abbrev pub publish : TrackerEvent → AgentStateTracker → AgentStateTracker
publish event t = record t {
  bus = elim t.bus [ none ↦ none | some events ↦ some (push events event) ];
}

abbrev pub set_record : AgentId → PerAgentRecord → AgentStateTracker → AgentStateTracker
set_record agent_id rec t = record t { records = λ a. if a == agent_id then rec else t.records a }

-- A loss: it counts, and from the fifth in a row on it benches and is told to the kill switch.
abbrev pub book_loss : ℕ → AgentId → PerAgentRecord → AgentStateTracker → AgentStateTracker
book_loss now agent_id rec t =
    let losses = rec.consecutive_losses + 1 in
    let counted = record rec { consecutive_losses = losses } in
    if leb consecutive_loss_bench_trigger losses
    then publish (agent_benched agent_id losses) (
        set_record agent_id
          (record counted { is_benched = true; bench_until = some (now + 24 * hour_us) })
          (record t { kill = (record_agent_result agent_id true now t.kill).1 }))
    else set_record agent_id counted t

-- Any other sale ends the run of losses, and a bench.
abbrev pub book_gain : AgentId → PerAgentRecord → AgentStateTracker → AgentStateTracker
book_gain agent_id rec t =
    set_record agent_id
      (record rec {
        consecutive_losses = 0;
        is_benched = false;
        bench_until = if rec.is_benched then none else rec.bench_until;
      })
      t

-- `update_on_fill`, but for the write to the file.
unfoldable pub apply_fill : ℕ → Fill → AgentStateTracker → AgentStateTracker
unfolding update_avg_cost is_loss clear_avg_cost
apply_fill now fill t =
    let rec = t.records fill.agent_id in
    let cleared = clear_avg_cost fill rec in
    if fill.side == OrderSide.buy
    then set_record fill.agent_id (update_avg_cost fill rec) t
    else if is_loss fill rec
    then book_loss now fill.agent_id cleared t
    else book_gain fill.agent_id cleared t

unfoldable pub update_on_fill : ℕ → Fill → AgentStateTracker → AgentStateTracker
unfolding apply_fill
update_on_fill now fill t = maybe_persist (apply_fill now fill t)

-- `update_on_mark`, but for the write to the file.
unfoldable pub apply_mark :
    ℕ → AgentId → (String → Option ℕ) → AgentStateTracker → AgentStateTracker
unfolding lift_bench mark_equity apply_bucket_with_recovery
apply_mark now agent_id mark_prices t =
    let rec = lift_bench now (mark_equity agent_id mark_prices t.ledger (t.records agent_id)) in
    let drawdown = drawdown_of rec in
    let raw_bucket = classify_drawdown (pos drawdown) in
    let t' =
      if has_tightened raw_bucket rec
      then publish (drawdown_ladder_fired agent_id drawdown raw_bucket) t
      else t in
    set_record agent_id (apply_bucket_with_recovery raw_bucket (date_of now) rec) t'

unfoldable pub update_on_mark :
    ℕ → AgentId → (String → Option ℕ) → AgentStateTracker → AgentStateTracker
unfolding apply_mark
update_on_mark now agent_id mark_prices t = maybe_persist (apply_mark now agent_id mark_prices t)

-- `get_state`, for the record that it leaves and reads: an expired bench is lifted.
unfoldable pub get_state : ℕ → AgentId → AgentStateTracker → PerAgentRecord × AgentStateTracker
unfolding lift_bench
get_state now agent_id t =
    let rec = lift_bench now (t.records agent_id) in (rec, set_record agent_id rec t)

unfoldable pub rebuild_from_ledger : (String → Option ℕ) → AgentStateTracker → AgentStateTracker
unfolding rebuild_record
rebuild_from_ledger mark_prices t =
    maybe_persist (record t { records = λ a. rebuild_record a mark_prices t.ledger (t.records a) })
