-- ===== src/Oms/Reconcile.antt =====
-- What reconciliation does to the orders and how it counts them.
use multi_agent_llm_trading.Prelude.{
  ℕ, suc, ◌+◌, ◌≤◌, ◌≡◌, ◌≢◌, refl, ◌∙◌, false, Option, none, some, List, [], ◌∷◌, length, push,
  String, nat_eq, string_eq, arith,
}
use multi_agent_llm_trading.Prelude.Dict.{Dict, lookup, lookup-insert_self}
use multi_agent_llm_trading.Types.{OrderState, order_state_eq, partial, rejected, reject}
use multi_agent_llm_trading.Fsm.OrderFsm.{order_next, is_terminal}
use multi_agent_llm_trading.Oms.Vocabulary.{
  BrokerOrderStatus, LoggedEvent, order_rejected, reconcile_abandoned,
}
use multi_agent_llm_trading.Oms.State.{Entry, Oms, Outcome, ok, raised, append_log}
use multi_agent_llm_trading.Oms.Handlers.{settle, rejected_entry, handle_rejection}
use multi_agent_llm_trading.Oms.Api.{and_then, force_state}
use multi_agent_llm_trading.Oms.Recover.{
  ReconcileSummary, Verdict, reconcile_order, reconcile_ids, reconcile_open_orders, count, keys,
}
use multi_agent_llm_trading.Oms.Replay.{replay_log, book_of, apply_kind, apply_logged_event, put}
use multi_agent_llm_trading.Oms.Agreement.{
  Agrees, InStep, transition-force_state, reject_arc, replay_log-push,
}
use multi_agent_llm_trading.Oms.Divergence.{replayed_entry, transition_entry_stuck}
use multi_agent_llm_trading.Oms.Lifecycle.{Keeps}

-- The orders that a summary has counted.
abbrev pub counted : ReconcileSummary → ℕ
counted s = s.orders_recovered + s.orders_abandoned + s.orders_already_terminal

-- No more than `n` orders have been counted since.
abbrev Within : ℕ → ReconcileSummary → ReconcileSummary → Type 0
Within n s s' =
    (s'.orders_replayed ≡ s.orders_replayed)
    × (counted s ≤ counted s')
    × (counted s' ≤ counted s + n)

count-Within : (v : Verdict) (s : ReconcileSummary) → Within 1 s (count v s)
count-Within v s = ground arith

-- One order more.
Within-next :
    (n : ℕ) (s s' : ReconcileSummary) (o' : Oms) (out : Outcome Verdict)
    (k : Verdict → Oms → Outcome ReconcileSummary)
    → ((v : Verdict) (o1 : Oms) → k v o1 ≡ (ok s', o') → Within n (count v s) s')
    → and_then out (λ v o1. k v o1) ≡ (ok s', o')
    → Within (suc n) s s'
Within-next n s s' o' (ok v, o1) k ih h =
    let (r, low, high) = ih v o1 h in
    let (r', low', high') = count-Within v s in (r ∙ r', omega arith, omega arith)
Within-next n s s' o' (raised e, o1) k ih h = absurd (ground arith)

length-keys : {V : Type 0} (d : Dict ℕ V) → length (keys d) ≡ length d
length-keys [] = refl
length-keys (x ∷ d) = ground (arith, length-keys d)

module _ (find : ℕ → Option BrokerOrderStatus) (fill_id : ℕ → ℕ) (now : ℕ) where
  reconcile_ids-Within :
      (ids : List ℕ) (s s' : ReconcileSummary) (o o' : Oms)
      → reconcile_ids find fill_id now ids s o ≡ (ok s', o')
      → Within (length ids) s s'
  unfolding reconcile_ids
  reconcile_ids-Within [] s s' o o' h = ground arith
  reconcile_ids-Within (id ∷ ids) s s' o o' h =
      let ih : (v : Verdict) (o1 : Oms)
          → reconcile_ids find fill_id now ids (count v s) o1 ≡ (ok s', o')
          → Within (length ids) (count v s) s' =
        λ v o1. reconcile_ids-Within ids (count v s) s' o1 o' in
      Within-next (length ids) s s' o' (reconcile_order find fill_id now id o)
        (λ v o1. reconcile_ids find fill_id now ids (count v s) o1) ih h

  -- A reconciliation that comes to its end counts every order as replayed, once, and what it
  -- recovered, abandoned or found over is no more than that.
  pub reconcile_open_orders-counts :
      (o o' : Oms) (s : ReconcileSummary)
      → reconcile_open_orders find fill_id now o ≡ (ok s, o')
      → (s.orders_replayed ≡ length o.entries) × (counted s ≤ s.orders_replayed)
  unfolding reconcile_open_orders
  reconcile_open_orders-counts o o' s h =
      let fresh : ReconcileSummary = record {
        orders_replayed = length o.entries;
        orders_recovered = 0;
        orders_abandoned = 0;
        orders_already_terminal = 0;
      } in
      let (same, low, high) = reconcile_ids-Within (keys o.entries) fresh s o o' h in
      (same, omega (arith, length-keys o.entries))

no_reject_arc : (st st' : OrderState) → st ≡ st' → st ≡ partial → order_next st' reject ≡ none
unfolding order_next
no_reject_arc st st' same is_partial = ground arith

rejected_entry-InStep : (reason : String) (e : Entry) → InStep e → InStep (rejected_entry reason e)
rejected_entry-InStep reason e step = record {
  same_state = step.same_state;
  order_table = step.order_table;
}

-- The broker has no record of an order.
module _ (id now : ℕ) (e : Entry) (o : Oms) (known : lookup id o.entries ≡ some e)
    (live : is_terminal e.order.state ≡ false) (find : ℕ → Option BrokerOrderStatus)
    (fill_id : ℕ → ℕ) (missing : find id ≡ none) where
  reconcile_order-missing : reconcile_order find fill_id now id o ≡ (
    ok Verdict.abandoned,
    settle id reject now (rejected_entry "abandoned_during_recovery" e) (
        append_log id
          (order_rejected "abandoned_during_recovery")
          now
          (append_log id (reconcile_abandoned "broker has no record after recovery") now o)),
  )
  unfolding reconcile_order handle_rejection
  reconcile_order-missing = ground arith

  abbrev left : Entry
  left = rejected_entry "abandoned_during_recovery" e

  abbrev told : Oms
  told = append_log id (reconcile_abandoned "broker has no record after recovery") now o

  -- The two rows that are logged, replayed: the order is rejected, whatever arc the machine has.
  replayed-abandoned :
      Agrees o
      → replayed_entry id (append_log id (order_rejected "abandoned_during_recovery") now told)
        ≡ some (force_state reject rejected left)
  unfolding apply_logged_event
  replayed-abandoned agrees =
      let noted : LoggedEvent = record {
        ts = now;
        kind = reconcile_abandoned "broker has no record after recovery";
        order_id = id;
      } in
      let refused : LoggedEvent = record {
        ts = now;
        kind = order_rejected "abandoned_during_recovery";
        order_id = id;
      } in
      let there = force_state reject rejected left in
      let first : replay_log (push o.store noted) ≡ some (book_of o) =
        replay_log-push o.store noted (book_of o) agrees in
      let row : apply_kind id now (order_rejected "abandoned_during_recovery") (book_of o)
          ≡ some (put id there (book_of o)) =
        ground arith in
      let second : replay_log (push (push o.store noted) refused)
          ≡ some (put id there (book_of o)) =
        replay_log-push (push o.store noted) refused (book_of o) first ∙ row in
      rw (second, replayed_entry) (lookup-insert_self id there o.entries)

  -- In an OMS that its log rebuilds: an order, in step with its machine and not over, of which the
  -- broker has no record, counts as abandoned. Unless it is partly filled it is rejected; a partly
  -- filled one keeps that state in memory. Either way a replay of the log that is left makes it
  -- rejected.
  pub reconcile_order-abandons :
      InStep e
      → Agrees o
      → let out = reconcile_order find fill_id now id o in
        (out.0 ≡ ok Verdict.abandoned)
        × (e.order.state ≢ partial → Keeps id rejected out.1)
        × (e.order.state ≡ partial → Keeps id partial out.1)
        × (replayed : Entry) × (replayed_entry id out.1 ≡ some replayed)
        × (replayed.order.state ≡ rejected)
  reconcile_order-abandons step agrees = rw reconcile_order-missing (
    refl,
    λ st.
        let arc = reject_arc e.order.state e.fsm.state step.same_state st live in
        let (moved, _) = transition-force_state id now reject rejected left step.order_table arc in
        (
          force_state reject rejected left,
          rw moved (lookup-insert_self id (force_state reject rejected left) o.entries),
          refl,
        ),
    λ st.
        let arc : order_next left.fsm.state reject ≡ none =
          no_reject_arc e.order.state e.fsm.state step.same_state st in
        let stuck =
          transition_entry_stuck id now reject left
            (rejected_entry-InStep "abandoned_during_recovery" e step) arc in
        (left, rw stuck (lookup-insert_self id left o.entries), st),
    force_state reject rejected left,
    replayed-abandoned agrees,
    refl,
  )
