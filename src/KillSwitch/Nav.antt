-- ===== src/KillSwitch/Nav.antt =====
-- The rolling peak of the portfolio's value.
use multi_agent_llm_trading.Prelude.{Option, none, some, List, [], ◌∷◌, arith}
use multi_agent_llm_trading.Prelude.Int.{ℤ, ◌≤ℤ◌}
use multi_agent_llm_trading.KillSwitch.{KillSwitchEngine}
use multi_agent_llm_trading.KillSwitch.History.{Op, apply, apply_all}

-- Peak and current value are known together, and the current value is not above the peak.
abbrev pub NavOrdered : Option ℤ → Option ℤ → Type 0
NavOrdered none none = Unit
NavOrdered (some peak) (some nav) = nav ≤ℤ peak
NavOrdered _ _ = ⊥

-- The peak never falls once it is known.
abbrev pub PeakBelow : Option ℤ → Option ℤ → Type 0
PeakBelow none _ = Unit
PeakBelow (some a) none = ⊥
PeakBelow (some a) (some b) = a ≤ℤ b

apply-nav :
    (op : Op) (k : KillSwitchEngine)
    → NavOrdered k.peak_nav k.current_nav
    → NavOrdered (apply op k).peak_nav (apply op k).current_nav
      × PeakBelow k.peak_nav (apply op k).peak_nav
unfolding apply
apply-nav op k h = ground arith

PeakBelow-refl : (a : Option ℤ) → PeakBelow a a
PeakBelow-refl a = ground arith

PeakBelow-trans : (a b c : Option ℤ) → PeakBelow a b → PeakBelow b c → PeakBelow a c
PeakBelow-trans a b c p q = ground arith

-- Over any history of calls the current value never stands above the peak, the two are known
-- together, and the peak never falls.
pub apply_all-nav :
    (ops : List Op) (k : KillSwitchEngine)
    → NavOrdered k.peak_nav k.current_nav
    → NavOrdered (apply_all ops k).peak_nav (apply_all ops k).current_nav
      × PeakBelow k.peak_nav (apply_all ops k).peak_nav
unfolding apply_all
apply_all-nav [] k h = (h, PeakBelow-refl k.peak_nav)
apply_all-nav (op ∷ ops) k h =
    let (ordered, grew) = apply-nav op k h in
    let (ordered', grew') = apply_all-nav ops (apply op k) ordered in
    (ordered', PeakBelow-trans k.peak_nav (apply op k).peak_nav _ grew grew')
