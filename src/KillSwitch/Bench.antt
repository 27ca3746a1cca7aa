-- ===== src/KillSwitch/Bench.antt =====
-- The benching of an agent after consecutive losses.
use multi_agent_llm_trading.Prelude.{
  ℕ, suc, ◌+◌, ◌*◌, ◌≤◌, ◌≡◌, ◌≢◌, refl, ◌∙◌, ap, if◌then◌else◌, Bool, true, false, List, [], ◌∷◌,
  arith, ltb, beq_refl, beq_ne,
}
use multi_agent_llm_trading.Types.{AgentId, agent_id_eq, hour_us}
use multi_agent_llm_trading.KillSwitch.{
  KillSwitchEngine, fresh_record, record_agent_result, is_agent_benched, consecutive_losses,
}

-- After a loss that makes five or more in a row the agent is benched for exactly 24 hours from that
-- loss: a look before that finds it benched, a later one does not and starts its record afresh.
pub bench_window :
    (a : AgentId) (k : KillSwitchEngine) (ts ts' : ℕ)
    → 4 ≤ consecutive_losses a k
    → let (tripped, k') = record_agent_result a true ts k in
      let (benched, k'') = is_agent_benched a ts' k' in
      (tripped ≡ true)
      × (benched ≡ ltb ts' (ts + 24 * hour_us))
      × (benched ≡ false → k''.agent_records a ≡ fresh_record)
unfolding record_agent_result is_agent_benched consecutive_losses
bench_window a k ts ts' h = ground (arith, beq_refl a)

result_counts :
    (a b : AgentId) (loss : Bool) (ts : ℕ) (k : KillSwitchEngine)
    → b ≢ a
    → let k' = (record_agent_result a loss ts k).1 in
      (consecutive_losses a k' ≡ (if loss then suc (consecutive_losses a k) else 0))
      × (k'.agent_records b ≡ k.agent_records b)
unfolding record_agent_result consecutive_losses
result_counts a b loss ts k ne = ground (arith, beq_refl a, beq_ne b a ne)

-- Results as they are recorded one after the other.
pub record_results : AgentId → List (Bool × ℕ) → KillSwitchEngine → KillSwitchEngine
record_results a [] k = k
record_results a ((loss, ts) ∷ rs) k = record_results a rs (record_agent_result a loss ts k).1

-- The losses at the end of a list of results, `n` before it.
abbrev pub losing_streak : ℕ → List (Bool × ℕ) → ℕ
losing_streak n [] = n
losing_streak n ((true, _) ∷ rs) = losing_streak (suc n) rs
losing_streak n ((false, _) ∷ rs) = losing_streak 0 rs

-- The count is the current losing streak, and the record of another agent is left alone.
pub record_results-losing_streak :
    (a b : AgentId) (rs : List (Bool × ℕ)) (k : KillSwitchEngine)
    → b ≢ a
    → (consecutive_losses a (record_results a rs k) ≡ losing_streak (consecutive_losses a k) rs)
      × ((record_results a rs k).agent_records b ≡ k.agent_records b)
unfolding record_results
record_results-losing_streak a b [] k ne = (refl, refl)
record_results-losing_streak a b ((true, ts) ∷ rs) k ne =
    let k' = (record_agent_result a true ts k).1 in
    let (counted, alone) = result_counts a b true ts k ne in
    let (streak, alone') = record_results-losing_streak a b rs k' ne in
    (streak ∙ ap (λ n. losing_streak n rs) counted, alone' ∙ alone)
record_results-losing_streak a b ((false, ts) ∷ rs) k ne =
    let k' = (record_agent_result a false ts k).1 in
    let (counted, alone) = result_counts a b false ts k ne in
    let (streak, alone') = record_results-losing_streak a b rs k' ne in
    (streak ∙ ap (λ n. losing_streak n rs) counted, alone' ∙ alone)
