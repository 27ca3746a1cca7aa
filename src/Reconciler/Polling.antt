-- ===== src/Reconciler/Polling.antt =====
-- execution/reconciler.py: polls of an order that the broker has filled.
use multi_agent_llm_trading.Prelude.{
  ℕ, ◌+◌, ◌≡◌, ◌⊎◌, refl, ◌∙◌, true, false, String, Option, some, ltb, nat_eq, Bool-cases,
  Option-cases, inl, inr, max, arith,
}
use multi_agent_llm_trading.Prelude.Dict.{lookup}
use multi_agent_llm_trading.Types.{
  order_state_eq, accepted, partial, filled, partial_fill, full_fill, Order, Fill,
}
use multi_agent_llm_trading.Fsm.OrderFsm.{order_next, is_terminal}
use multi_agent_llm_trading.Oms.Vocabulary.{
  BrokerOrderState, BrokerOrderStatus, BrokerOrderEvent, fill_received,
}
use multi_agent_llm_trading.Oms.State.{Entry, Oms, Outcome, ok, append_log, is_fully_filled}
use multi_agent_llm_trading.Oms.Handlers.{
  settle, on_broker_event, filled_entry, stamp_fill, force_close_filled,
}
use multi_agent_llm_trading.Oms.Api.{force_state, and_then}
use multi_agent_llm_trading.Oms.Agreement.{InStep}
use multi_agent_llm_trading.Oms.Delivery.{settle-forced, fill_event_lem}
use multi_agent_llm_trading.Oms.Divergence.{filled_entry-InStep, filled_entry_state}
use multi_agent_llm_trading.Reconciler.Orders.{
  catch_up_fill, status_event, update_order, check_order, status_requires_update,
}

-- An order that the broker works on: it is in step, and accepted or partly filled.
pub record IsWorking (id : ℕ) (bid : String) (o : Oms) (e : Entry) : Type 0 where
  pub known : lookup id o.entries ≡ some e
  pub step : InStep e
  pub live : (e.order.state ≡ accepted) ⊎ (e.order.state ≡ partial)
  pub same_id : e.order.id ≡ id
  pub broker_id : e.order.broker_order_id ≡ some bid

-- An order is FILLED in the OMS, with a filled quantity.
abbrev pub IsFilledWith : ℕ → ℕ → Oms → Type 0
IsFilledWith id qty o =
    (e : Entry) × (lookup id o.entries ≡ some e)
    × (e.order.state ≡ filled)
    × (e.order.filled_qty ≡ qty)

module _ (get_order : String → Option BrokerOrderStatus) (fill_id : ℕ → ℕ) (now id : ℕ)
    (bid : String) (status : BrokerOrderStatus) (answer : get_order bid ≡ some status)
    (done : status.state ≡ BrokerOrderState.filled) (client : status.client_order_id ≡ id) where
  abbrev poll : Order → Oms → Outcome ℕ
  poll = check_order get_order fill_id now

  module _ (e : Entry) (o : Oms) (w : IsWorking id bid o e) where
    news : status_requires_update e.order.state status.state ≡ true
    news = let live = w.live in ground arith

    full_arc : order_next e.order.state full_fill ≡ some filled
    unfolding order_next
    full_arc = let live = w.live in ground arith

    partial_arc : order_next e.order.state partial_fill ≡ some partial
    unfolding order_next
    partial_arc = let live = w.live in ground arith

    abbrev closed : Entry
    closed = record e {
      order = record e.order { qty = e.order.filled_qty; filled_at = some status.updated_at };
    }

    poll-close :
        ltb e.order.filled_qty status.filled_qty ≡ false
        → poll e.order o ≡ (ok 1, settle id full_fill status.updated_at closed o)
    unfolding check_order update_order force_close_filled
    poll-close none_new =
        let live : is_terminal e.order.state ≡ false = let st = w.live in ground arith in
        let known = w.known in let same = w.same_id in let broker = w.broker_id in ground arith

    -- The local books have all that the broker has filled.
    poll-closes :
        ltb e.order.filled_qty status.filled_qty ≡ false
        → ((poll e.order o).0 ≡ ok 1)
          × IsFilledWith id (max e.order.filled_qty status.filled_qty) (poll e.order o).1
    poll-closes none_new =
        let (at, _) =
          settle-forced id status.updated_at full_fill filled closed o
            (record { same_state = w.step.same_state; order_table = w.step.order_table })
            full_arc in
        rw (poll-close none_new)
          (refl, (force_state full_fill filled closed, at, refl, ground arith))

    abbrev caught : Fill
    caught = stamp_fill e.order (catch_up_fill (fill_id e.order.id) status e.order)

    abbrev fill_news : BrokerOrderEvent
    fill_news = status_event status (some (catch_up_fill (fill_id e.order.id) status e.order))

    poll-fill :
        ltb e.order.filled_qty status.filled_qty ≡ true
        → poll e.order o ≡ and_then (on_broker_event now fill_news o) (λ _ o'. (ok 1, o'))
    unfolding check_order update_order
    poll-fill more = let state_news = news in let broker = w.broker_id in ground arith

    caught_up :
        ltb e.order.filled_qty status.filled_qty ≡ true
        → (e' : Entry) × (filled_entry status.updated_at caught e ≡ some e')
          × (e'.order.filled_qty ≡ status.filled_qty)
          × (e'.order.id ≡ e.order.id)
          × (e'.order.broker_order_id ≡ e.order.broker_order_id)
    unfolding filled_entry
    caught_up more = elim (Option-cases (filled_entry status.updated_at caught e)) [
      | inl none' ↦ absurd (ground arith)
      | inr (e', found) ↦ (e', found, ground arith, ground arith, ground arith)
    ]

    -- The broker has filled more than the local books have.
    poll-fills :
        ltb e.order.filled_qty status.filled_qty ≡ true
        → ((poll e.order o).0 ≡ ok 1)
          × (IsFilledWith id (max e.order.filled_qty status.filled_qty) (poll e.order o).1
              ⊎ ((e' : Entry) × IsWorking id bid (poll e.order o).1 e'
                  × (e'.order.filled_qty ≡ status.filled_qty)))
    poll-fills more =
        let fill = catch_up_fill (fill_id e.order.id) status e.order in
        let (e', found, all_of_it, id', bid') = caught_up more in
        let heard =
          fill_event_lem id now e o w.known fill_news fill status.updated_at e' client done refl
            refl found in
        let logged = append_log id (fill_received caught) status.updated_at o in
        let same_state = filled_entry_state status.updated_at caught e e' found in
        let step = filled_entry-InStep status.updated_at caught e e' found w.step in
        elim (Bool-cases (is_fully_filled e.order.qty (e.order.filled_qty + caught.qty))) [
          | inl full ↦
              let (at, _) =
                settle-forced id status.updated_at full_fill filled e' logged step
                  (rw same_state full_arc) in
              rw (poll-fill more, heard, full)
                (refl, inl (force_state full_fill filled e', at, refl, ground (arith, all_of_it)))
          | inr part ↦
              let (at, step') =
                settle-forced id status.updated_at partial_fill partial e' logged step
                  (rw same_state partial_arc) in
              rw (poll-fill more, heard, part)
                (
                  refl,
                  inr (
                    force_state partial_fill partial e',
                    record {
                      known = at;
                      step = step';
                      live = inr refl;
                      same_id = id' ∙ w.same_id;
                      broker_id = bid' ∙ w.broker_id;
                    },
                    all_of_it,
                  ),
                )
        ]

  -- The broker reports an order FILLED that the OMS knows, under the same ids, as accepted or partly
  -- filled, with its machine in step. One poll makes the order FILLED in the OMS too, with the greater
  -- of its filled quantity and the broker's, or else leaves it open with the broker's; a second poll of
  -- the order then makes it FILLED with that quantity. Neither raises.
  pub poll_twice :
      (e : Entry) (o : Oms)
      → IsWorking id bid o e
      → let first = poll e.order o in
        (first.0 ≡ ok 1)
        × (IsFilledWith id (max e.order.filled_qty status.filled_qty) first.1
            ⊎ ((e' : Entry) × (lookup id first.1.entries ≡ some e')
                × (e'.order.filled_qty ≡ status.filled_qty)
                × ((poll e'.order first.1).0 ≡ ok 1)
                × IsFilledWith id status.filled_qty (poll e'.order first.1).1))
  poll_twice e o w = elim (Bool-cases (ltb e.order.filled_qty status.filled_qty)) [
    | inr none_new ↦ let (one, closed') = poll-closes e o w none_new in (one, inl closed')
    | inl more ↦
        let (one, rest) = poll-fills e o w more in
        (
          one,
          elim rest [
            | inl over ↦ inl over
            | inr (e', w', all_of_it) ↦
                let (two, (last, at, over, qty)) =
                  poll-closes e' (poll e.order o).1 w' (ground arith) in
                inr (e', w'.known, all_of_it, two, (last, at, over, omega arith))
          ],
        )
  ]
