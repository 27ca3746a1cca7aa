-- ===== src/Planner/Rounding.antt =====
-- What a quantity is worth at its mark, with the rounding of its computation.
use multi_agent_llm_trading.Prelude.{
  ℕ, ◌+◌, ◌-◌, ◌*◌, ◌/◌, ◌%◌, ◌≤◌, ◌<◌, ◌≡◌, inl, inr, false, arith, Bool-cases, ltb,
}
use multi_agent_llm_trading.Types.{unit, over, div_half_even, times, mul_mono}
use multi_agent_llm_trading.Planner.{qty_step, qty_of, rebalance_band_pct}

-- Rounded half to even, a quotient is at most half a divisor above.
div_half_even-mul : (a b : ℕ) → 2 * (div_half_even a b * b) ≤ 2 * a + b
unfolding div_half_even
div_half_even-mul a b =
    let q = a / b in
    let r = a % b in
    let whole : a ≡ q * b + r = omega arith in
    let up : (q + 1) * b ≡ q * b + b = grind arith in
    let odd : (q + q % 2) * b ≤ q * b + b = grind arith in ground arith

-- The fractional quantity of a value: at its mark it is worth the value at most, up to half a unit.
pub qty_of-worth :
    (value mark : ℕ) → 2 * (qty_of false value mark * mark) ≤ 2 * (value * unit) + mark
unfolding qty_of over
qty_of-worth value mark =
    let q = over value mark in
    let down : q / qty_step * qty_step ≤ q = omega arith in
    let scaled = mul_mono (q / qty_step * qty_step) q mark mark down (omega arith) in
    omega (arith, div_half_even-mul (value * unit) mark)

div_half_even-above : (a b : ℕ) → 0 < b → 2 * a ≤ 2 * (div_half_even a b * b) + b
unfolding div_half_even
div_half_even-above a b pos =
    let q = a / b in
    let r = a % b in
    let whole : a ≡ q * b + r = omega arith in
    let less : r < b = omega arith in
    let up : (q + 1) * b ≡ q * b + b = grind arith in
    let odd : q * b ≤ (q + q % 2) * b = grind arith in ground arith

-- It is worth the value at least, down to a step of quantity and half a unit of the mark.
qty_of-covers :
    (value mark : ℕ)
    → 0 < mark
    → 2 * (value * unit) ≤ 2 * (qty_of false value mark * mark) + (2 * qty_step + 1) * mark
unfolding qty_of over
qty_of-covers value mark pos =
    let q = over value mark in
    let down : q ≤ q / qty_step * qty_step + qty_step = omega arith in
    let scaled = mul_mono q (q / qty_step * qty_step + qty_step) mark mark down (omega arith) in
    let split : (q / qty_step * qty_step + qty_step) * mark
        ≡ q / qty_step * qty_step * mark + qty_step * mark =
      grind arith in
    omega (arith, div_half_even-above (value * unit) mark pos)

-- Products, rounded to a unit.
times-bounds :
    (a b : ℕ)
    → (2 * (times a b * unit) ≤ 2 * (a * b) + unit) × (2 * (a * b) ≤ 2 * (times a b * unit) + unit)
unfolding times
times-bounds a b = (div_half_even-mul (a * b) unit, div_half_even-above (a * b) unit (omega arith))

-- A position brought to its target by a purchase of the difference is within a step of it.
pub filled-near :
    (target held mark : ℕ)
    → 0 < mark
    → times held mark ≤ target
    → let q = qty_of false (target - times held mark) mark in
      let now = times (held + q) mark in
      (2 * unit * now ≤ 2 * unit * target + 2 * unit + mark)
      × (2 * unit * target ≤ 2 * unit * now + 2 * unit + (2 * qty_step + 1) * mark)
filled-near target held mark pos below =
    let value = target - times held mark in
    let q = qty_of false value mark in
    let split : (held + q) * mark ≡ held * mark + q * mark = grind arith in
    omega (
      arith,
      qty_of-worth value mark,
      qty_of-covers value mark pos,
      times-bounds held mark,
      times-bounds (held + q) mark,
    )

-- A difference that small is within the rebalance band of an equity of a dollar or more.
pub near-in_band :
    (delta mark equity : ℕ)
    → unit ≤ equity
    → mark ≤ 1000000 * equity
    → 2 * unit * delta ≤ 2 * unit + (2 * qty_step + 1) * mark
    → over delta equity < rebalance_band_pct
unfolding over
near-in_band delta mark equity dollar fine near =
    let d = div_half_even (delta * unit) equity in
    let top = div_half_even-mul (delta * unit) equity in
    elim (Bool-cases (ltb d rebalance_band_pct)) [
      | inl below ↦ ground arith
      | inr above ↦
          let large : rebalance_band_pct ≤ d = ground arith in
          let reached = mul_mono rebalance_band_pct d equity equity large (omega arith) in
          absurd (omega arith)
    ]
