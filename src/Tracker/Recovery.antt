-- ===== src/Tracker/Recovery.antt =====
-- The recovery rule of the drawdown bucket.
use multi_agent_llm_trading.Prelude.{
  ℕ, ◌+◌, ◌≤◌, ◌<◌, ◌≡◌, Option, none, some, List, [], ◌∷◌, ◌&&◌, arith, ◌==◌, nat_eq, eqb,
  if◌then◌else◌,
}
use multi_agent_llm_trading.Types.{DrawdownBucket, drawdown_bucket_code}
use multi_agent_llm_trading.Tracker.Record.{
  PerAgentRecord, apply_bucket_with_recovery, is_target, is_new_day,
}

-- A bucket that is the same or worse is taken at once, and ends a recovery. A better one is taken
-- only after four days of recovery towards it, on another day.
pub apply_bucket-step :
    (raw : DrawdownBucket) (today : ℕ) (rec : PerAgentRecord)
    → let rec' = apply_bucket_with_recovery raw today rec in
      (drawdown_bucket_code rec.sizing_bucket ≤ drawdown_bucket_code raw
        → (rec'.sizing_bucket ≡ raw) × (rec'.recovery_target ≡ none) × (rec'.recovery_days ≡ 0))
      × (drawdown_bucket_code raw < drawdown_bucket_code rec.sizing_bucket
          → rec.recovery_days ≤ 4
          → rec'.sizing_bucket ≡ (
              if is_target raw rec.recovery_target
                && (is_new_day today rec.last_update_date && eqb rec.recovery_days 4)
              then raw
              else rec.sizing_bucket))
unfolding apply_bucket_with_recovery
apply_bucket-step raw today rec = (λ worse. ground arith, λ better few. ground arith)

-- The record after marks on several days, at one bucket.
pub marked : DrawdownBucket → List ℕ → PerAgentRecord → PerAgentRecord
marked raw [] rec = rec
marked raw (d ∷ ds) rec = marked raw ds (apply_bucket_with_recovery raw d rec)

-- How often the day changes.
abbrev pub changes : ℕ → List ℕ → ℕ
changes d [] = 0
changes d (e ∷ es) = (if e == d then 0 else 1) + changes e es

abbrev pub days_counted : List ℕ → ℕ
days_counted [] = 0
days_counted (d ∷ ds) = 1 + changes d ds

-- The record after marks of any buckets, each with its day.
pub marked_all : List (DrawdownBucket × ℕ) → PerAgentRecord → PerAgentRecord
marked_all [] rec = rec
marked_all ((raw, day) ∷ marks) rec = marked_all marks (apply_bucket_with_recovery raw day rec)

-- How often the day changes over them.
abbrev pub new_days : Option ℕ → List (DrawdownBucket × ℕ) → ℕ
new_days last [] = 0
new_days last ((_, day) ∷ marks) =
    (if is_new_day day last then 1 else 0) + new_days (some day) marks

early-step :
    (raw : DrawdownBucket) (day : ℕ) (rec : PerAgentRecord) (n : ℕ)
    → rec.recovery_days ≤ n
    → 1 ≤ n
    → n + (if is_new_day day rec.last_update_date then 1 else 0) ≤ 4
    → let rec' = apply_bucket_with_recovery raw day rec in
      (drawdown_bucket_code rec.sizing_bucket ≤ drawdown_bucket_code rec'.sizing_bucket)
      × (rec'.recovery_days ≤ n + (if is_new_day day rec.last_update_date then 1 else 0))
      × (rec'.last_update_date ≡ some day)
unfolding apply_bucket_with_recovery
early-step raw day rec n few pos slow = ground arith

-- While the days counted towards a recovery (one at least) and the new days of the marks come to at
-- most four, no marks, of any buckets, bring a better bucket than there was.
pub no_early_loosening :
    (marks : List (DrawdownBucket × ℕ)) (rec : PerAgentRecord) (n : ℕ)
    → rec.recovery_days ≤ n
    → 1 ≤ n
    → n + new_days rec.last_update_date marks ≤ 4
    → drawdown_bucket_code rec.sizing_bucket
      ≤ drawdown_bucket_code (marked_all marks rec).sizing_bucket
unfolding marked_all
no_early_loosening [] rec n few pos slow = omega arith
no_early_loosening ((raw, day) ∷ marks) rec n few pos slow =
    let rec' = apply_bucket_with_recovery raw day rec in
    let (no_better, slow', at) = early-step raw day rec n few pos (omega arith) in
    let days = n + (if is_new_day day rec.last_update_date then 1 else 0) in
    let ih = no_early_loosening marks rec' days slow' (omega arith) (rw at (omega arith)) in
    omega arith
