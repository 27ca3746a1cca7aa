-- ===== src/KillSwitch/Drawdown.antt =====
-- The drawdown ladder of the kill switch: what `update_nav` does to the state.
use multi_agent_llm_trading.Prelude.{
  ℕ, ◌*◌, ◌≤◌, ◌<◌, ◌≡◌, refl, ◌≢◌, ◌↔◌, ◌⊎◌, Bool, true, false, none, some, max, arith,
  if◌then◌else◌,
}
use multi_agent_llm_trading.Prelude.Int.{ℤ, pos, ◌-ℤ◌}
use multi_agent_llm_trading.Types.{KillSwitchState}
use multi_agent_llm_trading.KillSwitch.{
  KillSwitchEngine, Fraction, at_least, compute_drawdown, update_nav, can_open_new, drawdown_worse,
  blocks_new_entries, drawdown_state,
}

-- The four states that speak of drawdown alone, and how severe each is.
abbrev pub is_drawdown_state : KillSwitchState → Bool
is_drawdown_state KillSwitchState.ok = true
is_drawdown_state KillSwitchState.drawdown_halved = true
is_drawdown_state KillSwitchState.drawdown_paused = true
is_drawdown_state KillSwitchState.drawdown_liquidate = true
is_drawdown_state _ = false

abbrev pub severity : KillSwitchState → ℕ
severity KillSwitchState.drawdown_liquidate = 3
severity KillSwitchState.drawdown_paused = 2
severity KillSwitchState.drawdown_halved = 1
severity _ = 0

-- The severity that a drawdown calls for.
abbrev pub ladder : Fraction → ℕ
ladder dd =
    if at_least dd 33 then 3 else if at_least dd 25 then 2 else if at_least dd 15 then 1 else 0

drawdown_state-severity :
    (dd : Fraction) (st : KillSwitchState)
    → is_drawdown_state st ≡ true
    → (severity (drawdown_state dd st) ≡ max (severity st) (ladder dd))
      × (is_drawdown_state (drawdown_state dd st) ≡ true)
drawdown_state-severity dd st h = ground arith

-- From a drawdown state, a new value moves the switch to the worse of where it stood and what the
-- drawdown calls for: the ladder is climbed, never descended, and no other state is entered.
pub update_nav-severity :
    (nav : ℤ) (k : KillSwitchEngine)
    → is_drawdown_state k.state ≡ true
    → let k' = (update_nav nav k).1 in
      (severity k'.state ≡ max (severity k.state) (ladder (compute_drawdown k')))
      × (is_drawdown_state k'.state ≡ true)
unfolding update_nav
update_nav-severity nav k h =
    drawdown_state-severity (compute_drawdown (update_nav nav k).1) k.state h

-- `update_nav` reports a state exactly when the state has changed, and reports the new one.
pub update_nav_report :
    (nav : ℤ) (k : KillSwitchEngine)
    → let (report, k') = update_nav nav k in
      ((report ≡ none) × (k'.state ≡ k.state)) ⊎ ((report ≡ some k'.state) × (k'.state ≢ k.state))
unfolding update_nav
update_nav_report nav k = ground arith

-- With a positive peak, the switch liquidates exactly when the value has fallen to 67% of the peak
-- or below (or stood at liquidation before).
pub liquidates_at_a_third :
    (p v : ℕ) (k : KillSwitchEngine)
    → k.peak_nav ≡ some (pos p)
    → 0 < p
    → k.state ≢ KillSwitchState.drawdown_liquidate
    → ((update_nav (pos v) k).1.state ≡ KillSwitchState.drawdown_liquidate) ↔ (100 * v ≤ 67 * p)
unfolding update_nav ◌-ℤ◌
liquidates_at_a_third p v k e h ne = ground arith

-- A state that blocks new entries for another reason than drawdown (daily loss, missed heartbeat,
-- reconciliation break, exhausted budget) is overwritten by a drawdown of 15% to 25%, and new
-- entries are allowed again.
pub halving_unblocks :
    (nav : ℤ) (k : KillSwitchEngine)
    → blocks_new_entries k.state ≡ true
    → drawdown_worse k.state ≡ false
    → ladder (compute_drawdown (update_nav nav k).1) ≡ 1
    → (can_open_new k ≡ false) × (can_open_new (update_nav nav k).1 ≡ true)
unfolding can_open_new update_nav
halving_unblocks nav k b w l = (rw b refl, ground arith)
