-- ===== src/KillSwitch.antt =====
-- execution/kill_switch.py: the global kill switch and the benching of agents.
--
-- A drawdown is the fraction (peak - current) / peak; it is kept as a fraction and compared with a
-- threshold by multiplying out, where the source compares the quotient rounded to 28 digits.
pub mod History
pub mod Nav
pub mod Drawdown
pub mod Latch
pub mod Bench
mod Examples
use multi_agent_llm_trading.Prelude.{
  ℕ, ◌+◌, ◌-◌, ◌*◌, Bool, true, false, not, ◌&&◌, Option, none, some, ◌==◌, ltb, leb, if◌then◌else◌,
}
use multi_agent_llm_trading.Prelude.Int.{ℤ, pos, negsuc, pos_part, neg_part, ◌-ℤ◌, ltb_ℤ, leb_ℤ}
use multi_agent_llm_trading.Types.{
  AgentId, agent_id_eq, KillSwitchState, kill_switch_state_eq, DrawdownBucket, second_us, hour_us,
  unit,
}

-- DAILY_LOSS_THRESHOLD, in units of 10^-18: 0.02.
abbrev pub daily_loss_threshold : ℕ
daily_loss_threshold = 20000000000000000

-- The drawdown thresholds, in hundredths.
abbrev pub drawdown_halved_threshold : ℕ
drawdown_halved_threshold = 15

abbrev pub drawdown_paused_threshold : ℕ
drawdown_paused_threshold = 25

abbrev pub drawdown_liquidate_threshold : ℕ
drawdown_liquidate_threshold = 33

abbrev pub consecutive_loss_bench_trigger : ℕ
consecutive_loss_bench_trigger = 5

abbrev pub bench_duration_hours : ℕ
bench_duration_hours = 24

pub record AgentRecord : Type 0 where
  pub consecutive_losses : ℕ
  pub benched_until : Option ℕ

pub record KillSwitchEngine : Type 0 where
  pub state : KillSwitchState
  pub daily_pnl_pct : ℤ
  pub peak_nav : Option ℤ
  pub current_nav : Option ℤ
  pub last_heartbeat : Option ℕ
  pub heartbeat_timeout_secs : ℕ
  pub agent_records : AgentId → AgentRecord

abbrev pub fresh_record : AgentRecord
fresh_record = record { consecutive_losses = 0; benched_until = none }

unfoldable pub new_engine : ℕ → KillSwitchEngine
new_engine heartbeat_timeout_secs = record {
  state = KillSwitchState.ok;
  daily_pnl_pct = pos 0;
  peak_nav = none;
  current_nav = none;
  last_heartbeat = none;
  heartbeat_timeout_secs = heartbeat_timeout_secs;
  agent_records = λ _. fresh_record;
}

-- `_BLOCKS_NEW_ENTRIES`
abbrev pub blocks_new_entries : KillSwitchState → Bool
blocks_new_entries KillSwitchState.drawdown_paused = true
blocks_new_entries KillSwitchState.drawdown_liquidate = true
blocks_new_entries KillSwitchState.daily_loss = true
blocks_new_entries KillSwitchState.heartbeat_missed = true
blocks_new_entries KillSwitchState.reconciliation_break = true
blocks_new_entries KillSwitchState.budget_exhausted = true
blocks_new_entries KillSwitchState.ok = false
blocks_new_entries KillSwitchState.drawdown_halved = false

-- `_DRAWDOWN_WORSE_STATES`
abbrev pub drawdown_worse : KillSwitchState → Bool
drawdown_worse KillSwitchState.drawdown_paused = true
drawdown_worse KillSwitchState.drawdown_liquidate = true
drawdown_worse _ = false

unfoldable pub can_trade : KillSwitchEngine → Bool
can_trade k = not (k.state == KillSwitchState.drawdown_liquidate)

unfoldable pub can_open_new : KillSwitchEngine → Bool
can_open_new k = not (blocks_new_entries k.state)

-- A Decimal quotient, as numerator and denominator.
pub record Fraction : Type 0 where
  pub num : ℤ
  pub den : ℤ

abbrev pub zero_fraction : Fraction
zero_fraction = record { num = pos 0; den = pos 1 }

-- f >= percent / 100, for a denominator that is not zero.
abbrev pub at_least : Fraction → ℕ → Bool
at_least f percent =
    if ltb_ℤ (pos 0) f.den
    then leb (percent * pos_part f.den + 100 * neg_part f.num) (100 * pos_part f.num)
    else leb (100 * pos_part f.num + percent * neg_part f.den) (100 * neg_part f.num)

-- `_compute_drawdown`, on the peak and the current value.
abbrev pub drawdown_of : Option ℤ → Option ℤ → Fraction
drawdown_of none _ = zero_fraction
drawdown_of (some peak) none = zero_fraction
drawdown_of (some peak) (some nav) =
    if leb_ℤ peak (pos 0) && leb_ℤ (pos 0) peak
    then zero_fraction
    else record { num = peak -ℤ nav; den = peak }

unfoldable pub compute_drawdown : KillSwitchEngine → Fraction
compute_drawdown k = drawdown_of k.peak_nav k.current_nav

-- The state that `_apply_drawdown` leaves.
abbrev pub drawdown_state : Fraction → KillSwitchState → KillSwitchState
drawdown_state dd old =
    if at_least dd drawdown_liquidate_threshold
    then KillSwitchState.drawdown_liquidate
    else if at_least dd drawdown_paused_threshold
    then if old == KillSwitchState.drawdown_liquidate then old else KillSwitchState.drawdown_paused
    else if at_least dd drawdown_halved_threshold && not (drawdown_worse old)
    then KillSwitchState.drawdown_halved
    else old

-- The new state when it differs from the old one.
abbrev pub if_changed : KillSwitchState → KillSwitchState → Option KillSwitchState
if_changed old new = if new == old then none else some new

unfoldable pub apply_drawdown :
    Fraction → KillSwitchEngine → Option KillSwitchState × KillSwitchEngine
apply_drawdown dd k =
    let new = drawdown_state dd k.state in (if_changed k.state new, record k { state = new })

unfoldable pub update_daily_pnl : ℤ → KillSwitchEngine → Option KillSwitchState × KillSwitchEngine
update_daily_pnl pnl k =
    let k' = record k { daily_pnl_pct = pnl } in
    if leb daily_loss_threshold (neg_part pnl) && k.state == KillSwitchState.ok
    then (some KillSwitchState.daily_loss, record k' { state = KillSwitchState.daily_loss })
    else (none, k')

-- The peak after a new value.
abbrev pub raise_peak : Option ℤ → ℤ → ℤ
raise_peak none nav = nav
raise_peak (some peak) nav = if ltb_ℤ peak nav then nav else peak

unfoldable pub update_nav : ℤ → KillSwitchEngine → Option KillSwitchState × KillSwitchEngine
unfolding apply_drawdown compute_drawdown
update_nav nav k =
    let k' = record k { peak_nav = some (raise_peak k.peak_nav nav); current_nav = some nav } in
    apply_drawdown (compute_drawdown k') k'

unfoldable pub record_heartbeat : ℕ → KillSwitchEngine → KillSwitchEngine
record_heartbeat ts k = record k {
  last_heartbeat = some ts;
  state = if k.state == KillSwitchState.heartbeat_missed then KillSwitchState.ok else k.state;
}

-- Whether the last heartbeat is too old. A time before it gives 0, which is never too old.
abbrev pub is_overdue : Option ℕ → ℕ → ℕ → Bool
is_overdue none timeout ts = false
is_overdue (some last) timeout ts = ltb (timeout * second_us) (ts - last)

unfoldable pub check_heartbeat : ℕ → KillSwitchEngine → Bool × KillSwitchEngine
check_heartbeat ts k =
    if is_overdue k.last_heartbeat k.heartbeat_timeout_secs ts
    then (false, record k { state = KillSwitchState.heartbeat_missed })
    else (true, k)

unfoldable pub trip_reconciliation_break : KillSwitchEngine → KillSwitchEngine
trip_reconciliation_break k = record k { state = KillSwitchState.reconciliation_break }

unfoldable pub trip_budget_exhausted : KillSwitchEngine → KillSwitchEngine
trip_budget_exhausted k = record k { state = KillSwitchState.budget_exhausted }

unfoldable pub reset_daily : KillSwitchEngine → KillSwitchEngine
reset_daily k = record k {
  daily_pnl_pct = pos 0;
  state = if k.state == KillSwitchState.daily_loss then KillSwitchState.ok else k.state;
}

unfoldable pub clear_reconciliation_break : KillSwitchEngine → KillSwitchEngine
clear_reconciliation_break k =
    if k.state == KillSwitchState.reconciliation_break
    then record k { state = KillSwitchState.ok }
    else k

-- `self._agent_records[agent_id] = rec`
abbrev pub set_record : AgentId → AgentRecord → KillSwitchEngine → KillSwitchEngine
set_record agent_id rec k = record k {
  agent_records = λ a. if a == agent_id then rec else k.agent_records a;
}

unfoldable pub record_agent_result : AgentId → Bool → ℕ → KillSwitchEngine → Bool × KillSwitchEngine
record_agent_result agent_id is_loss ts k =
    let rec = k.agent_records agent_id in
    let losses = rec.consecutive_losses + 1 in
    let trips = leb consecutive_loss_bench_trigger losses in
    let until = if trips then some (ts + bench_duration_hours * hour_us) else rec.benched_until in
    if is_loss
    then (
      trips,
      set_record agent_id (record { consecutive_losses = losses; benched_until = until }) k,
    )
    else (false, set_record agent_id fresh_record k)

-- An expired bench is cleared when it is looked at.
abbrev check_bench : Option ℕ → AgentId → ℕ → KillSwitchEngine → Bool × KillSwitchEngine
check_bench none agent_id ts k = (false, k)
check_bench (some until) agent_id ts k =
    if ltb ts until then (true, k) else (false, set_record agent_id fresh_record k)

unfoldable pub is_agent_benched : AgentId → ℕ → KillSwitchEngine → Bool × KillSwitchEngine
is_agent_benched agent_id ts k = check_bench (k.agent_records agent_id).benched_until agent_id ts k

unfoldable pub consecutive_losses : AgentId → KillSwitchEngine → ℕ
consecutive_losses agent_id k = (k.agent_records agent_id).consecutive_losses

-- A drawdown in units of 10^-18; -1 of them and less is `normal` too.
unfoldable pub classify_drawdown : ℤ → DrawdownBucket
classify_drawdown drawdown_pct =
    let d = 100 * pos_part drawdown_pct in
    if leb (25 * unit) d
    then DrawdownBucket.forced_cash
    else if leb (15 * unit) d
    then DrawdownBucket.red
    else if leb (10 * unit) d
    then DrawdownBucket.orange
    else if leb (5 * unit) d
    then DrawdownBucket.yellow
    else DrawdownBucket.normal
