-- ===== src/Tracker/Bench.antt =====
-- The bench of the tracker and the one of the kill switch, over a run of losing sales.
use multi_agent_llm_trading.Prelude.{
  ℕ, ◌+◌, ◌-◌, ◌≤◌, ◌<◌, ◌≡◌, sym, ◌∙◌, inl, inr, true, false, none, List, [], ◌∷◌, length, arith,
  leb, beq_refl, Bool-cases,
}
use multi_agent_llm_trading.Types.{AgentId, agent_id_eq, OrderSide, order_side_eq, Fill}
use multi_agent_llm_trading.KillSwitch.{KillSwitchEngine, record_agent_result, is_agent_benched}
use multi_agent_llm_trading.Tracker.{AgentStateTracker, apply_fill, update_on_fill}
use multi_agent_llm_trading.Tracker.Record.{PerAgentRecord, is_loss, clear_avg_cost}

-- The tracker after fills, each with the time at which it is seen.
pub fill_all : List (ℕ × Fill) → AgentStateTracker → AgentStateTracker
fill_all [] t = t
fill_all ((now, f) ∷ fs) t = fill_all fs (update_on_fill now f t)

-- Sales of one agent, each at a loss when it comes.
abbrev pub AreLosses : AgentId → List (ℕ × Fill) → AgentStateTracker → Type 0
AreLosses a [] t = Unit
AreLosses a ((now, f) ∷ fs) t =
    (f.agent_id ≡ a)
    × (f.side ≡ OrderSide.sell)
    × (is_loss f (t.records a) ≡ true)
    × AreLosses a fs (update_on_fill now f t)

clear_avg_cost-losses :
    (f : Fill) (rec : PerAgentRecord)
    → (clear_avg_cost f rec).consecutive_losses ≡ rec.consecutive_losses
unfolding clear_avg_cost
clear_avg_cost-losses f rec = ground arith

module _ (a : AgentId) (now : ℕ) (f : Fill) (t : AgentStateTracker) (agent : f.agent_id ≡ a)
    (sell : f.side ≡ OrderSide.sell) (loss : is_loss f (t.records a) ≡ true) where
  -- A loss counts in the tracker. The fifth in a row and those after it bench the agent, and only
  -- they reach the kill switch.
  loss-step :
      let t' = update_on_fill now f t in
      let n = (t.records a).consecutive_losses in
      ((t'.records a).consecutive_losses ≡ n + 1)
      × (n < 4 → t'.kill ≡ t.kill)
      × (4 ≤ n
          → ((t'.records a).is_benched ≡ true)
            × (t'.kill ≡ (record_agent_result a true now t.kill).1))
  unfolding update_on_fill apply_fill
  loss-step = ground (arith, beq_refl a, clear_avg_cost-losses f (t.records f.agent_id))

-- The losses that have reached the kill switch, and that they have benched no one.
abbrev IsTold : AgentId → ℕ → KillSwitchEngine → Type 0
IsTold a n k = k.agent_records a ≡ record { consecutive_losses = n; benched_until = none }

IsTold-step :
    (a : AgentId) (n now : ℕ) (k : KillSwitchEngine)
    → n < 4
    → IsTold a n k
    → IsTold a (n + 1) (record_agent_result a true now k).1
unfolding record_agent_result
IsTold-step a n now k few h = ground (arith, beq_refl a)

IsTold-after :
    (a : AgentId) (now : ℕ) (f : Fill) (t : AgentStateTracker)
    → f.agent_id ≡ a
    → f.side ≡ OrderSide.sell
    → is_loss f (t.records a) ≡ true
    → let n = (t.records a).consecutive_losses in
      n < 8 → IsTold a (n - 4) t.kill → IsTold a (n + 1 - 4) (update_on_fill now f t).kill
IsTold-after a now f t agent sell loss few told =
    let (_, untold, tells) = loss-step a now f t agent sell loss in
    let n = (t.records a).consecutive_losses in
    elim (Bool-cases (leb 4 n)) [
      | inl fifth ↦
          let enough : 4 ≤ n = ground arith in
          let (_, kill) = tells enough in
          let count : n + 1 - 4 ≡ n - 4 + 1 = omega arith in
          rw (kill, count) (IsTold-step a (n - 4) now t.kill (omega arith) told)
      | inr early ↦
          let less : n < 4 = ground arith in
          let same : n + 1 - 4 ≡ n - 4 = omega arith in rw (untold less, same) told
    ]

-- After a run of losing sales the kill switch has been told of all but the first four, and while
-- they are fewer than nine it has benched no one.
losing_run :
    (a : AgentId) (fs : List (ℕ × Fill)) (t : AgentStateTracker)
    → AreLosses a fs t
    → let n = (t.records a).consecutive_losses in
      n + length fs ≤ 8
      → IsTold a (n - 4) t.kill
      → ((fill_all fs t).records a).consecutive_losses ≡ n + length fs
        × IsTold a (n + length fs - 4) (fill_all fs t).kill
unfolding fill_all
losing_run a [] t h few told =
    let n = (t.records a).consecutive_losses in
    let same : n + 0 ≡ n = omega arith in (sym same, rw same told)
losing_run a ((now, f) ∷ fs) t h few told =
    let n = (t.records a).consecutive_losses in
    let t' = update_on_fill now f t in
    let (counted, _, _) = loss-step a now f t h.0 h.1 h.2 in
    let told' = IsTold-after a now f t h.0 h.1 h.2 (omega arith) told in
    let (total, told'') = losing_run a fs t' h.3 (omega arith) (rw counted told') in
    let whole : (t'.records a).consecutive_losses + length fs ≡ n + length ((now, f) ∷ fs) =
      omega arith in
    (total ∙ whole, rw (sym whole) told'')

untold-unbenched :
    (a : AgentId) (n ts : ℕ) (k : KillSwitchEngine)
    → IsTold a n k
    → (is_agent_benched a ts k).0 ≡ false
unfolding is_agent_benched
untold-unbenched a n ts k h = ground arith

losing_run-benched :
    (a : AgentId) (fs : List (ℕ × Fill)) (t : AgentStateTracker)
    → AreLosses a fs t
    → let n = (t.records a).consecutive_losses in
      5 ≤ n + length fs → 1 ≤ length fs → ((fill_all fs t).records a).is_benched ≡ true
unfolding fill_all
losing_run-benched a [] t h five one = absurd (omega arith)
losing_run-benched a ((now, f) ∷ []) t h five one =
    let (_, _, tells) = loss-step a now f t h.0 h.1 h.2 in (tells (omega arith)).0
losing_run-benched a ((now, f) ∷ (now', f') ∷ fs) t h five one =
    let (counted, _, _) = loss-step a now f t h.0 h.1 h.2 in
    losing_run-benched a ((now', f') ∷ fs) (update_on_fill now f t) h.3 (omega arith) (omega arith)

-- From a clean start, five to eight losing sales of an agent in a row bench it in the tracker. The
-- kill switch, which is told only from the fifth on, has it benched at no time.
pub bench_mismatch :
    (a : AgentId) (fs : List (ℕ × Fill)) (t : AgentStateTracker) (ts : ℕ)
    → AreLosses a fs t
    → (t.records a).consecutive_losses ≡ 0
    → t.kill.agent_records a ≡ record { consecutive_losses = 0; benched_until = none }
    → 5 ≤ length fs
    → length fs ≤ 8
    → let t' = fill_all fs t in
      ((t'.records a).is_benched ≡ true) × ((is_agent_benched a ts t'.kill).0 ≡ false)
bench_mismatch a fs t ts h fresh clean five eight =
    let n = (t.records a).consecutive_losses in
    let none_told : n - 4 ≡ 0 = omega arith in
    let (_, told) = losing_run a fs t h (omega arith) (rw none_told clean) in
    let t' = fill_all fs t in
    (
      losing_run-benched a fs t h (omega arith) (omega arith),
      untold-unbenched a (n + length fs - 4) ts t'.kill told,
    )
