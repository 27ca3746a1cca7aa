-- ===== src/Reconciler/Breaks.antt =====
-- execution/reconciler.py: a pass and the kill switch.
use multi_agent_llm_trading.Prelude.{
  ℕ, ◌<◌, ◌≡◌, ◌⊎◌, refl, ap, ◌∙◌, Bool, true, false, not, String, Option, none, some, List, [],
  ◌∷◌, length, eqb, string_eq, if◌then◌else◌, Option-cases, inl, inr, arith,
}
use multi_agent_llm_trading.Prelude.Dict.{lookup}
use multi_agent_llm_trading.Types.{KillSwitchState, kill_switch_state_eq}
use multi_agent_llm_trading.KillSwitch.{
  KillSwitchEngine, check_heartbeat, trip_reconciliation_break, clear_reconciliation_break,
}
use multi_agent_llm_trading.Oms.Vocabulary.{BrokerOrderStatus, BrokerPosition}
use multi_agent_llm_trading.Oms.State.{Oms, ok}
use multi_agent_llm_trading.Oms.Api.{GhostIds}
use multi_agent_llm_trading.Reconciler.{Reconciler, ReconcileResult}
use multi_agent_llm_trading.Reconciler.Orders.{list_open_orders, reconcile_orders}
use multi_agent_llm_trading.Reconciler.Positions.{
  Mismatch, Findings, publish_breaks, report_mismatches, reconcile_positions, compare_all,
  all_symbols, by_symbol, compute_expected_positions,
}
use multi_agent_llm_trading.Reconciler.Pass.{
  watch_heartbeat, forward_state, clear_if, reconcile_once,
}

publish_breaks-kill :
    (symbols : List String) (details : List (String × Mismatch)) (r : Reconciler)
    → (publish_breaks symbols details r).kill ≡ r.kill
unfolding publish_breaks
publish_breaks-kill [] details r = refl
publish_breaks-kill (s ∷ symbols) details r = elim (Option-cases (lookup s details)) [
  | inl e ↦ rw (publish_breaks, e) refl
  | inr (m, e) ↦ rw (publish_breaks, e) (publish_breaks-kill symbols details _)
]

-- A report either has no mismatch and leaves the kill switch, or has some and trips it.
abbrev Verdict : KillSwitchEngine → ℕ → Bool → KillSwitchEngine → Type 0
Verdict k n tripped k' =
    ((n ≡ 0) × (tripped ≡ false) × (k' ≡ k))
    ⊎ ((0 < n) × (tripped ≡ true) × (k' ≡ trip_reconciliation_break k))

report_mismatches-Verdict :
    (names : List String) (details : List (String × Mismatch)) (r : Reconciler)
    → let f : Findings = record { mismatches = names; details = details } in
      let out = report_mismatches f r in Verdict r.kill out.0.0 out.0.1 out.1.kill
unfolding report_mismatches
report_mismatches-Verdict [] details r = inl (refl, refl, refl)
report_mismatches-Verdict (n ∷ names) details r = elim (Option-cases r.bus) [
  | inl e ↦ inr (omega arith, refl, rw (report_mismatches, e) refl)
  | inr (sent, e) ↦
      inr (omega arith, refl, rw (report_mismatches, e) (publish_breaks-kill _ details _))
]

reconcile_positions-Verdict :
    (ids : String → GhostIds) (arrange : List String → List String)
    (positions : Option (List BrokerPosition)) (ts : ℕ) (r : Reconciler)
    → let out = reconcile_positions ids arrange positions ts r in
      Verdict r.kill out.0.0 out.0.1 out.1.kill
unfolding reconcile_positions
reconcile_positions-Verdict ids arrange none ts r = inl (refl, refl, refl)
reconcile_positions-Verdict ids arrange (some positions) ts r =
    let expected = compute_expected_positions r.oms in
    let held = by_symbol positions in
    let out =
      compare_all ids r.orphan_agent_id r.qty_tolerance ts expected held
        (arrange (all_symbols expected held)) r.oms (record { mismatches = []; details = [] }) in
    report_mismatches-Verdict out.1.mismatches out.1.details (record r { oms = out.0 })

forward_state-kill : (tripped : Bool) (r : Reconciler) → (forward_state tripped r).kill ≡ r.kill
unfolding forward_state
forward_state-kill tripped r = ground arith

watch_heartbeat-kill :
    (ts : ℕ) (r : Reconciler) → (watch_heartbeat ts r).kill ≡ (check_heartbeat ts r.kill).1
unfolding watch_heartbeat
watch_heartbeat-kill ts r = ground arith

watch_heartbeat-oms : (ts : ℕ) (r : Reconciler) → (watch_heartbeat ts r).oms ≡ r.oms
unfolding watch_heartbeat
watch_heartbeat-oms ts r = ground arith

-- The kill switch after a pass with that many mismatches.
abbrev pub after_pass : ℕ → KillSwitchEngine → KillSwitchEngine
after_pass mismatches k =
    if eqb mismatches 0 then clear_reconciliation_break k else trip_reconciliation_break k

clear_if-after :
    (n : ℕ) (tripped : Bool) (k : KillSwitchEngine) (r : Reconciler)
    → Verdict k n tripped r.kill
    → ((clear_if n r).kill ≡ after_pass n k) × (tripped ≡ not (eqb n 0))
clear_if-after n tripped k r (inl (none', calm, same)) = (ground arith, ground arith)
clear_if-after n tripped k r (inr (more, trips, same)) = (ground arith, ground arith)

module _ (get_order : String → Option BrokerOrderStatus) (fill_id : ℕ → ℕ) (ids : String → GhostIds)
    (arrange : List String → List String) (ts : ℕ) where
  -- A pass whose order polls raise nothing returns. It trips the kill switch exactly if it has
  -- counted a mismatch, and the switch is then in RECONCILIATION_BREAK whatever it was in before;
  -- with no mismatch it is as the heartbeat check left it, with a reconciliation break cleared.
  pub reconcile_once-kill :
      (positions : Option (List BrokerPosition)) (r : Reconciler) (n : ℕ) (o : Oms)
      → reconcile_orders get_order fill_id ts (list_open_orders r.oms) 0 r.oms ≡ (ok n, o)
      → let out = reconcile_once get_order fill_id ids arrange positions ts r in
        (result : ReconcileResult) × (out.0 ≡ ok result)
        × (result.kill_switch_tripped ≡ not (eqb result.position_mismatches 0))
        × (out.1.kill ≡ after_pass result.position_mismatches (check_heartbeat ts r.kill).1)
  unfolding reconcile_once
  reconcile_once-kill positions r n o polled =
      let r1 = watch_heartbeat ts r in
      let polled' : reconcile_orders get_order fill_id ts (list_open_orders r1.oms) 0 r1.oms
          ≡ (ok n, o) =
        rw (watch_heartbeat-oms ts r) polled in
      let out = reconcile_positions ids arrange positions ts (record r1 { oms = o }) in
      let mismatches = out.0.0 in
      let tripped = out.0.1 in
      let (kill, same) =
        clear_if-after mismatches tripped r1.kill out.1
          (reconcile_positions-Verdict ids arrange positions ts (record r1 { oms = o })) in
      let result : ReconcileResult = record {
        orders_checked = length (list_open_orders r1.oms);
        orders_updated = n;
        position_mismatches = mismatches;
        kill_switch_tripped = tripped;
      } in
      (
        result,
        rw (reconcile_once, polled') refl,
        same,
        rw (reconcile_once, polled')
            (forward_state-kill tripped (clear_if mismatches out.1)
              ∙ kill
              ∙ ap (after_pass mismatches) (watch_heartbeat-kill ts r)),
      )

  -- A pass during which the broker's positions cannot be fetched counts no mismatch, and so clears a
  -- reconciliation break that stood, although nothing was compared: with the heartbeat in time, the
  -- kill switch is OK afterwards.
  pub reconcile_once-outage :
      (r : Reconciler) (n : ℕ) (o : Oms)
      → reconcile_orders get_order fill_id ts (list_open_orders r.oms) 0 r.oms ≡ (ok n, o)
      → check_heartbeat ts r.kill ≡ (true, r.kill)
      → r.kill.state ≡ KillSwitchState.reconciliation_break
      → let out = reconcile_once get_order fill_id ids arrange none ts r in
        (result : ReconcileResult) × (out.0 ≡ ok result)
        × (result.position_mismatches ≡ 0)
        × (out.1.kill.state ≡ KillSwitchState.ok)
  unfolding reconcile_once reconcile_positions clear_reconciliation_break
  reconcile_once-outage r n o polled in_time stood =
      let r1 = watch_heartbeat ts r in
      let polled' : reconcile_orders get_order fill_id ts (list_open_orders r1.oms) 0 r1.oms
          ≡ (ok n, o) =
        rw (watch_heartbeat-oms ts r) polled in
      let kill : r1.kill ≡ r.kill = watch_heartbeat-kill ts r ∙ ap (λ x. x.1) in_time in
      let cleared : (clear_reconciliation_break r1.kill).state ≡ KillSwitchState.ok =
        rw kill (ground arith) in
      (
        record {
          orders_checked = length (list_open_orders r1.oms);
          orders_updated = n;
          position_mismatches = 0;
          kill_switch_tripped = false;
        },
        rw (reconcile_once, polled') refl,
        refl,
        rw (reconcile_once, polled')
            (ap (λ k. k.state) (forward_state-kill false (clear_if 0 (record r1 { oms = o })))
              ∙ cleared),
      )
