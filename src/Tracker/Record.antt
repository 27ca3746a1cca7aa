-- ===== src/Tracker/Record.antt =====
-- The record of an agent: its costs, its bench, its equity and its drawdown bucket.
use multi_agent_llm_trading.Prelude.{
  ℕ, ◌+◌, ◌-◌, ◌*◌, Bool, true, false, not, ◌&&◌, String, Option, none, some, [], keep, ltb, leb,
  eqb, nat_eq, string_eq, ◌==◌, if◌then◌else◌,
}
use multi_agent_llm_trading.Prelude.Int.{ℤ, pos, pos_part, ◌+ℤ◌, ◌-ℤ◌, ltb_ℤ}
use multi_agent_llm_trading.Prelude.Dict.{Dict, lookup, insert}
use multi_agent_llm_trading.Types.{
  AgentId, agent_id_eq, DrawdownBucket, drawdown_bucket_eq, drawdown_bucket_code, order_side_eq,
  Fill, over, div_half_even,
}
use multi_agent_llm_trading.KillSwitch.{classify_drawdown}
use multi_agent_llm_trading.Lots.{LotLedger, values}
use multi_agent_llm_trading.Tracker.Pnl.{realized, unrealized, to_units, replay_consecutive_losses}

-- `_RECOVERY_DAYS_REQUIRED`
abbrev pub recovery_days_required : ℕ
recovery_days_required = 5

-- `_PerAgentRecord`
pub record PerAgentRecord : Type 0 where
  pub starting_equity : ℤ
  pub current_equity : ℤ
  pub peak_equity : ℤ
  pub consecutive_losses : ℕ
  pub is_benched : Bool
  pub bench_until : Option ℕ
  pub sizing_bucket : DrawdownBucket
  pub recovery_target : Option DrawdownBucket
  pub recovery_since : Option ℕ
  pub recovery_days : ℕ
  pub last_update_date : Option ℕ
  pub avg_cost : Dict String ℕ
  pub open_qty : Dict String ℕ

-- The record of an agent at the start.
abbrev pub first_record : ℤ → PerAgentRecord
first_record equity = record {
  starting_equity = equity;
  current_equity = equity;
  peak_equity = equity;
  consecutive_losses = 0;
  is_benched = false;
  bench_until = none;
  sizing_bucket = DrawdownBucket.normal;
  recovery_target = none;
  recovery_since = none;
  recovery_days = 0;
  last_update_date = none;
  avg_cost = [];
  open_qty = [];
}

-- A row keeps all of a record but its costs and quantities.
abbrev pub row_of : PerAgentRecord → PerAgentRecord
row_of rec = record rec { avg_cost = []; open_qty = [] }

abbrev pub num_or_zero : Option ℕ → ℕ
num_or_zero none = 0
num_or_zero (some q) = q

-- `_update_avg_cost`
unfoldable pub update_avg_cost : Fill → PerAgentRecord → PerAgentRecord
update_avg_cost fill rec =
    let prev_qty = num_or_zero (lookup fill.symbol rec.open_qty) in
    let prev_cost = num_or_zero (lookup fill.symbol rec.avg_cost) in
    let new_qty = prev_qty + fill.qty in
    let new_cost = div_half_even (prev_cost * prev_qty + fill.price * fill.qty) new_qty in
    if ltb 0 new_qty
    then record rec {
      avg_cost = insert fill.symbol new_cost rec.avg_cost;
      open_qty = insert fill.symbol new_qty rec.open_qty;
    }
    else rec

abbrev below_cost : ℕ → Option ℕ → Bool
below_cost price none = false
below_cost price (some avg_cost) = ltb price avg_cost

-- `_is_loss`
unfoldable pub is_loss : Fill → PerAgentRecord → Bool
is_loss fill rec = below_cost fill.price (lookup fill.symbol rec.avg_cost)

-- `d.pop(k, None)`
abbrev pub pop : String → Dict String ℕ → Dict String ℕ
pop k d = keep (λ e. not (e.0 == k)) d

-- `_clear_avg_cost`
unfoldable pub clear_avg_cost : Fill → PerAgentRecord → PerAgentRecord
clear_avg_cost fill rec =
    let new_qty = num_or_zero (lookup fill.symbol rec.open_qty) - fill.qty in
    if eqb new_qty 0
    then record rec {
      open_qty = pop fill.symbol rec.open_qty;
      avg_cost = pop fill.symbol rec.avg_cost;
    }
    else record rec { open_qty = insert fill.symbol new_qty rec.open_qty }

-- A bench that has run out by now is lifted.
abbrev pub is_past : Option ℕ → ℕ → Bool
is_past none now = false
is_past (some until) now = leb until now

unfoldable pub lift_bench : ℕ → PerAgentRecord → PerAgentRecord
lift_bench now rec =
    if rec.is_benched && is_past rec.bench_until now
    then record rec { is_benched = false; bench_until = none; consecutive_losses = 0 }
    else rec

-- (peak - equity) / peak, of a positive peak that the equity does not exceed.
abbrev pub drawdown_of : PerAgentRecord → ℕ
drawdown_of rec =
    if ltb_ℤ (pos 0) rec.peak_equity
    then over (pos_part (rec.peak_equity -ℤ rec.current_equity)) (pos_part rec.peak_equity)
    else 0

-- `today != rec.last_update_date`
abbrev pub is_new_day : ℕ → Option ℕ → Bool
is_new_day today none = true
is_new_day today (some last) = not (today == last)

abbrev pub is_target : DrawdownBucket → Option DrawdownBucket → Bool
is_target b none = false
is_target b (some target) = target == b

-- The recovery counters after a day at a better bucket.
abbrev pub count_recovery : DrawdownBucket → ℕ → PerAgentRecord → PerAgentRecord
count_recovery raw_bucket today rec =
    if not (is_target raw_bucket rec.recovery_target)
    then record rec {
      recovery_target = some raw_bucket;
      recovery_since = some today;
      recovery_days = 1;
    }
    else if is_new_day today rec.last_update_date
    then record rec { recovery_days = rec.recovery_days + 1 }
    else rec

abbrev pub settle : DrawdownBucket → ℕ → PerAgentRecord → PerAgentRecord
settle raw_bucket today rec = record rec {
  sizing_bucket = raw_bucket;
  recovery_target = none;
  recovery_since = none;
  recovery_days = 0;
  last_update_date = some today;
}

-- `_apply_bucket_with_recovery`, on the record.
unfoldable pub apply_bucket_with_recovery : DrawdownBucket → ℕ → PerAgentRecord → PerAgentRecord
apply_bucket_with_recovery raw_bucket today rec =
    let counted = count_recovery raw_bucket today rec in
    if leb (drawdown_bucket_code rec.sizing_bucket) (drawdown_bucket_code raw_bucket)
    then settle raw_bucket today rec
    else if leb recovery_days_required counted.recovery_days
    then settle raw_bucket today counted
    else record counted { last_update_date = some today }

-- Whether it publishes: a bucket that is strictly worse.
abbrev pub has_tightened : DrawdownBucket → PerAgentRecord → Bool
has_tightened raw_bucket rec =
    ltb (drawdown_bucket_code rec.sizing_bucket) (drawdown_bucket_code raw_bucket)

-- The equity at the marks and its peak.
unfoldable pub mark_equity :
    AgentId → (String → Option ℕ) → LotLedger → PerAgentRecord → PerAgentRecord
unfolding realized unrealized
mark_equity agent_id mark_prices l rec =
    let lots = values l.lots in
    let profit = to_units (realized agent_id lots +ℤ unrealized agent_id mark_prices lots) in
    let new_equity = rec.starting_equity +ℤ profit in
    record rec {
      current_equity = new_equity;
      peak_equity = if ltb_ℤ rec.peak_equity new_equity then new_equity else rec.peak_equity;
    }

-- One round of the loop of `rebuild_from_ledger`.
unfoldable pub rebuild_record :
    AgentId → (String → Option ℕ) → LotLedger → PerAgentRecord → PerAgentRecord
unfolding realized unrealized replay_consecutive_losses
rebuild_record agent_id mark_prices l rec =
    let lots = values l.lots in
    let profit = to_units (realized agent_id lots +ℤ unrealized agent_id mark_prices lots) in
    let current_equity = rec.starting_equity +ℤ profit in
    let valued = record rec {
      current_equity = current_equity;
      peak_equity =
          if ltb_ℤ current_equity rec.starting_equity then rec.starting_equity else current_equity;
      consecutive_losses = replay_consecutive_losses agent_id lots;
      recovery_target = none;
      recovery_since = none;
      recovery_days = 0;
    } in
    record valued { sizing_bucket = classify_drawdown (pos (drawdown_of valued)) }
