-- ===== src/Sizing/Bounds.antt =====
-- Bounds on the gross cap and on the value of a position.
use multi_agent_llm_trading.Prelude.{
  ℕ, ◌≤◌, ◌<◌, ◌≡◌, ◌↔◌, refl, Bool, true, false, Option, none, some, max, arith,
}
use multi_agent_llm_trading.Prelude.Int.{ℤ, pos, ◌≤ℤ◌}
use multi_agent_llm_trading.Types.{
  AgentId, DrawdownBucket, VixBucket, unit, percent, times, times_mono, times-le, times_zero,
  zero_times, times_ℤ-pos, div_half_even,
}
use multi_agent_llm_trading.Sizing.{
  agent_base_max_gross, vix_scalar, drawdown_scalar, sleeve_weight, effective_max_gross,
  max_master_capability, vol_targeted_position_value, sizing_multiplier, vol_floor_annual,
  RuntimeStore, new_store, set_master_capability,
}

base-le : (a : AgentId) → agent_base_max_gross a ≤ percent 150
base-le a = ground arith

vix-le : (v : VixBucket) → vix_scalar v ≤ unit
vix-le v = ground arith

drawdown-le : (d : DrawdownBucket) → drawdown_scalar d ≤ unit
drawdown-le d = ground arith

sleeve_weight_bounds :
    (w : Option ℕ) → (percent 25 ≤ sleeve_weight w) × (sleeve_weight w ≤ percent 200)
sleeve_weight_bounds w = ground arith

-- 1.5 * 1.5 = 2.25, and twice that is 4.5.
top_of_base : times (percent 150) (percent 150) ≡ percent 225
unfolding times div_half_even
top_of_base = refl

top_of_weight : times (percent 225) (percent 200) ≡ percent 450
unfolding times div_half_even
top_of_weight = refl

module _ (weights : AgentId → Option ℕ) (a : AgentId) (mc : ℕ) (v : VixBucket)
    (d : DrawdownBucket) where
  -- The product before the sleeve weight.
  abbrev scaled : ℕ
  scaled = times (times (times (agent_base_max_gross a) mc) (vix_scalar v)) (drawdown_scalar d)

  scaled-le : mc ≤ percent 150 → scaled ≤ percent 225
  scaled-le h = omega (
    arith,
    times-le (times (times (agent_base_max_gross a) mc) (vix_scalar v)) (drawdown_scalar d)
        (drawdown-le d),
    times-le (times (agent_base_max_gross a) mc) (vix_scalar v) (vix-le v),
    times_mono (agent_base_max_gross a) (percent 150) mc (percent 150) (base-le a) h,
    top_of_base,
  )

  gross-eq :
      (gross : ℕ)
      → effective_max_gross weights a mc v d ≡ some gross
      → (mc ≤ percent 150) × (gross ≡ times scaled (sleeve_weight (weights a)))
  unfolding effective_max_gross
  gross-eq gross h = ground arith

  forced_cash_zero : d ≡ DrawdownBucket.forced_cash → scaled ≡ 0
  forced_cash_zero h = rw h (times_zero (times (times (agent_base_max_gross a) mc) (vix_scalar v)))

  -- The gross cap is defined exactly where MASTER_CAPABILITY is at most 1.5. It is at most 4.5
  -- then, whatever the Manager's weights say, and nothing for an agent in FORCED_CASH.
  pub effective_max_gross_bounds :
      ((effective_max_gross weights a mc v d ≡ none) ↔ (max_master_capability < mc))
      × ((gross : ℕ)
          → effective_max_gross weights a mc v d ≡ some gross
          → (gross ≤ percent 450) × (d ≡ DrawdownBucket.forced_cash → gross ≡ 0))
  unfolding effective_max_gross
  effective_max_gross_bounds = (
    (λ h. ground arith, λ h. ground arith),
    λ gross h.
        let (low, same) = gross-eq gross h in
        let w = sleeve_weight (weights a) in
        let top =
          times_mono scaled (percent 225) w (percent 200) (scaled-le low)
            (sleeve_weight_bounds (weights a)).1 in
        (
          rw same (omega (arith, top, top_of_weight)),
          λ cash. rw same (rw (forced_cash_zero cash) (zero_times w)),
        ),
  )

-- Of a weight and an equity that are not negative: a position is worth at most 1.75 times its share
-- of the equity, and a realized volatility below the floor of 8% counts as the floor.
pub vol_targeted_position_value_bounds :
    (weight equity vol target : ℕ)
    → let value : ℕ → ℤ = λ v. vol_targeted_position_value (pos weight) (pos equity) v target in
      (value vol ≤ℤ pos (times (times weight equity) (percent 175)))
      × (vol ≤ vol_floor_annual → value vol ≡ value vol_floor_annual)
unfolding vol_targeted_position_value sizing_multiplier
vol_targeted_position_value_bounds weight equity vol target =
    let share = times weight equity in
    let mult = sizing_multiplier vol target in
    let top = times_mono share share mult (percent 175) (omega arith) (omega arith) in
    (
      rw (times_ℤ-pos weight equity, times_ℤ-pos share mult) (omega (arith, top)),
      λ low.
          let same : max vol vol_floor_annual ≡ max vol_floor_annual vol_floor_annual =
            omega arith in
          rw same refl,
    )

-- A value that is set without OVERRIDE_KEY is one that the gross cap accepts, and a restart finds
-- it. With the key it may be one that the cap refuses.
pub set_master_capability_accepted :
    (override_key : Bool) (value default : ℕ) (store : RuntimeStore) (weights : AgentId → Option ℕ)
    (a : AgentId) (v : VixBucket) (d : DrawdownBucket)
    → let store' = set_master_capability override_key value store in
      let mc = store'.master_capability in
      (override_key ≡ false → (gross : ℕ) × (effective_max_gross weights a mc v d ≡ some gross))
      × (override_key ≡ true
          → max_master_capability < value
          → effective_max_gross weights a mc v d ≡ none)
      × (new_store default store'.persisted ≡ store')
unfolding set_master_capability new_store effective_max_gross
set_master_capability_accepted override_key value default store weights a v d = (
  λ off. (
    times (scaled weights a (set_master_capability override_key value store).master_capability v d)
        (sleeve_weight (weights a)),
    ground arith,
  ),
  λ on big. ground arith,
  ground arith,
)
