-- ===== src/Oms/Recover.antt =====
-- `recover`: the replay of the log, then `_reconcile_open_orders` with the broker's word on each
-- order. What the broker answers to `find_order_by_client_id` is a parameter `find`; the clock reads
-- the same throughout. The id of the synthetic fill is drawn by a parameter `fill_id`.
use multi_agent_llm_trading.Prelude.{
  ℕ, ◌+◌, ◌-◌, String, Bool, true, false, ◌&&◌, Option, none, some, List, [], ◌∷◌, length, map,
  nat_eq, string_eq, ◌==◌, ltb, if◌then◌else◌,
}
use multi_agent_llm_trading.Prelude.Dict.{Dict, lookup}
use multi_agent_llm_trading.Types.{
  OrderState, order_state_eq, pending, accepted, partial, filled, cancelled, rejected, expired,
  Order, Fill,
}
use multi_agent_llm_trading.Fsm.OrderFsm.{is_terminal}
use multi_agent_llm_trading.Oms.Vocabulary.{
  BrokerOrderState, BrokerOrderStatus, reconcile_noop, reconcile_recovered, reconcile_abandoned,
}
use multi_agent_llm_trading.Oms.State.{Oms, Outcome, ok, raised, key_error, append_log}
use multi_agent_llm_trading.Oms.Handlers.{
  done, record_accepted, handle_fill, handle_cancellation, handle_rejection, handle_expiry,
  force_close_filled, reason_or,
}
use multi_agent_llm_trading.Oms.Api.{and_then}
use multi_agent_llm_trading.Oms.Replay.{replay_from, book_of}

pub record ReconcileSummary : Type 0 where
  pub orders_replayed : ℕ
  pub orders_recovered : ℕ
  pub orders_abandoned : ℕ
  pub orders_already_terminal : ℕ

pub broker_state_to_local : BrokerOrderState → OrderState
broker_state_to_local BrokerOrderState.new = accepted
broker_state_to_local BrokerOrderState.accepted = accepted
broker_state_to_local BrokerOrderState.partially_filled = partial
broker_state_to_local BrokerOrderState.filled = filled
broker_state_to_local BrokerOrderState.canceled = cancelled
broker_state_to_local BrokerOrderState.rejected = rejected
broker_state_to_local BrokerOrderState.expired = expired
broker_state_to_local BrokerOrderState.unknown = pending

abbrev same_broker_id : Option String → String → Bool
same_broker_id none bid = false
same_broker_id (some b) bid = b == bid

unfoldable pub broker_state_matches : Order → BrokerOrderStatus → Bool
unfolding broker_state_to_local
broker_state_matches order broker =
    same_broker_id order.broker_order_id broker.broker_order_id
    && order.filled_qty == broker.filled_qty
    && broker_state_to_local broker.state == order.state

-- `self._orders[order_id]`, read again after a call.
abbrev reread : {A : Type 0} → ℕ → (Order → Oms → Outcome A) → Oms → Outcome A
reread order_id f o = elim (lookup order_id o.entries) [
  | none ↦ (raised key_error, o)
  | some e ↦ f e.order o
]

-- The acceptance that the log is missing; whether there was one to record.
abbrev catch_up_accept : ℕ → BrokerOrderStatus → ℕ → Order → Oms → Outcome Bool
catch_up_accept order_id broker ts local o = elim local.broker_order_id [
  | none ↦ and_then (record_accepted order_id broker.broker_order_id ts o) (λ _ o'. (ok true, o'))
  | some _ ↦ (ok false, o)
]

abbrev pub price_or_zero : Option ℕ → ℕ
price_or_zero none = 0
price_or_zero (some p) = p

abbrev pub is_not_filled : BrokerOrderState → Bool
is_not_filled BrokerOrderState.filled = false
is_not_filled BrokerOrderState.new = true
is_not_filled BrokerOrderState.accepted = true
is_not_filled BrokerOrderState.partially_filled = true
is_not_filled BrokerOrderState.canceled = true
is_not_filled BrokerOrderState.rejected = true
is_not_filled BrokerOrderState.expired = true
is_not_filled BrokerOrderState.unknown = true

abbrev synthetic_fill : ℕ → BrokerOrderStatus → ℕ → ℕ → Order → Fill
synthetic_fill order_id broker fill_id ts local = record {
  id = fill_id;
  order_id = order_id;
  agent_id = local.agent_id;
  symbol = local.symbol;
  side = local.side;
  qty = broker.filled_qty - local.filled_qty;
  price = price_or_zero broker.avg_fill_price;
  timestamp = ts;
  commission = 0;
  is_partial = is_not_filled broker.state;
}

-- A fill for the quantity that the log is missing, if it is missing any.
abbrev catch_up_fill : ℕ → BrokerOrderStatus → ℕ → ℕ → Bool → Order → Oms → Outcome Bool
catch_up_fill order_id broker fill_id ts advanced local o =
    if ltb local.filled_qty broker.filled_qty
    then and_then (handle_fill order_id (synthetic_fill order_id broker fill_id ts local) ts o)
        (λ _ o'. (ok true, o'))
    else (ok advanced, o)

-- The end that the broker reports.
abbrev catch_up_end : ℕ → BrokerOrderStatus → ℕ → BrokerOrderState → Bool → Oms → Outcome Bool
catch_up_end order_id broker ts BrokerOrderState.canceled advanced o =
    and_then (handle_cancellation order_id ts o) (λ _ o'. (ok true, o'))
catch_up_end order_id broker ts BrokerOrderState.rejected advanced o =
    and_then
      (handle_rejection order_id (reason_or broker.rejection_reason "broker rejected (recovered)")
        ts o)
      (λ _ o'. (ok true, o'))
catch_up_end order_id broker ts BrokerOrderState.expired advanced o =
    and_then (handle_expiry order_id ts o) (λ _ o'. (ok true, o'))
catch_up_end order_id broker ts BrokerOrderState.filled advanced o =
    reread order_id
      (λ local o'.
        if is_terminal local.state
        then (ok advanced, o')
        else and_then (force_close_filled order_id ts o') (λ _ o''. (ok true, o'')))
      o
catch_up_end order_id broker ts BrokerOrderState.new advanced o = (ok advanced, o)
catch_up_end order_id broker ts BrokerOrderState.accepted advanced o = (ok advanced, o)
catch_up_end order_id broker ts BrokerOrderState.partially_filled advanced o = (ok advanced, o)
catch_up_end order_id broker ts BrokerOrderState.unknown advanced o = (ok advanced, o)

unfoldable pub catch_up_from_broker : ℕ → BrokerOrderStatus → ℕ → ℕ → Oms → Outcome (Unit {0})
catch_up_from_broker order_id broker fill_id ts o =
    reread order_id
      (λ local o0. and_then (catch_up_accept order_id broker ts local o0) (λ taken o1.
        reread order_id
          (λ local' o1'.
            and_then (catch_up_fill order_id broker fill_id ts taken local' o1') (λ grown o2.
              and_then (catch_up_end order_id broker ts broker.state grown o2) (λ advanced o3.
                done (
                  append_log order_id
                    (if advanced
                      then reconcile_recovered broker.state
                      else reconcile_noop broker.state)
                    ts o3))))
          o1))
      o

-- What became of one order.
pub data Verdict : Type 0 where
  already_terminal abandoned noop recovered : Verdict

-- One round of the loop of `_reconcile_open_orders`.
unfoldable pub reconcile_order :
    (ℕ → Option BrokerOrderStatus) → (ℕ → ℕ) → ℕ → ℕ → Oms → Outcome Verdict
unfolding broker_state_matches catch_up_from_broker
reconcile_order find fill_id now order_id o =
    reread order_id
      (λ order o'.
        if is_terminal order.state then (ok already_terminal, o') else elim (find order_id) [
          | none ↦
              let reason : String = "broker has no record after recovery" in
              let noted = append_log order_id (reconcile_abandoned reason) now o' in
              and_then (handle_rejection order_id "abandoned_during_recovery" now noted)
                (λ _ o''. (ok Verdict.abandoned, o''))
          | some broker ↦
              if broker_state_matches order broker
              then (ok noop, append_log order_id (reconcile_noop broker.state) now o')
              else and_then (catch_up_from_broker order_id broker (fill_id order_id) now o')
                  (λ _ o''. (ok recovered, o''))
        ])
      o

abbrev pub count : Verdict → ReconcileSummary → ReconcileSummary
count already_terminal s = record s { orders_already_terminal = s.orders_already_terminal + 1 }
count Verdict.abandoned s = record s { orders_abandoned = s.orders_abandoned + 1 }
count noop s = s
count recovered s = record s { orders_recovered = s.orders_recovered + 1 }

unfoldable pub reconcile_ids :
    (ℕ → Option BrokerOrderStatus)
    → (ℕ → ℕ)
    → ℕ
    → List ℕ
    → ReconcileSummary
    → Oms
    → Outcome ReconcileSummary
reconcile_ids find fill_id now [] s o = (ok s, o)
reconcile_ids find fill_id now (id ∷ ids) s o =
    and_then (reconcile_order find fill_id now id o)
      (λ verdict o'. reconcile_ids find fill_id now ids (count verdict s) o')

abbrev pub keys : {V : Type 0} → Dict ℕ V → List ℕ
keys d = map (λ entry. entry.0) d

unfoldable pub reconcile_open_orders :
    (ℕ → Option BrokerOrderStatus) → (ℕ → ℕ) → ℕ → Oms → Outcome ReconcileSummary
unfolding reconcile_ids
reconcile_open_orders find fill_id now o =
    reconcile_ids find fill_id now (keys o.entries)
      (record {
        orders_replayed = length o.entries;
        orders_recovered = 0;
        orders_abandoned = 0;
        orders_already_terminal = 0;
      })
      o

-- The replay starts from the memory as it is, empty after construction. If it raises, what it has
-- changed until then is left out.
unfoldable pub recover :
    (ℕ → Option BrokerOrderStatus) → (ℕ → ℕ) → ℕ → Oms → Outcome ReconcileSummary
unfolding reconcile_open_orders replay_from
recover find fill_id now o = elim (replay_from (book_of o) o.store) [
  | none ↦ (raised key_error, o)
  | some b ↦
      reconcile_open_orders find fill_id now
        (record o { entries = b.entries; broker_id_to_order = b.broker_id_to_order })
]
