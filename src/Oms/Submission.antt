-- ===== src/Oms/Submission.antt =====
-- What a submission leaves behind for each reply of the broker.
use multi_agent_llm_trading.Oms.Serialize.{serialize_order}
use multi_agent_llm_trading.Oms.Api.{
  deliver, result_of, conclude, force_state, takes, rejects, unavailable, placed, log_intent,
  submit_order, SubmitReply,
}
use multi_agent_llm_trading.Prelude.{
  ℕ, ◌≡◌, refl, Bool, false, Option, none, some, [], push, String, List, ap, ◌∙◌, nat_eq, string_eq,
  arith,
}
use multi_agent_llm_trading.Prelude.Dict.{lookup, insert, contains, lookup-insert_self}
use multi_agent_llm_trading.Types.{
  OrderState, OrderEvent, order_state_eq, submit, accept, reject, pending, submitted, accepted,
  rejected, Order,
}
use multi_agent_llm_trading.Fsm.OrderFsm.{order_machine, order_next}
use multi_agent_llm_trading.Oms.Vocabulary.{
  LoggedEvent, order_rejected, order_submit_intent, order_accepted,
}
use multi_agent_llm_trading.Oms.State.{Entry, Oms, transition_entry, append_log}
use multi_agent_llm_trading.Oms.Handlers.{
  rejected_entry, settle, record_accepted, handle_rejection, accepted_entry,
}
use multi_agent_llm_trading.Oms.Agreement.{transition-force_state, InStep}
use multi_agent_llm_trading.Oms.Agreement.Calls.{}
use multi_agent_llm_trading.Oms.Divergence.{}
use multi_agent_llm_trading.Oms.Lifecycle.{Keeps}

-- The entry of an order that has just been submitted.
pub sent : Order → ℕ → Entry
unfolding transition_entry
sent order now =
    (transition_entry order.id submit now
      (record { order = order; fsm = order_machine pending; fills = [] })).0

pub placed-log_intent :
    (order : Order) (now : ℕ) (o : Oms)
    → (lookup order.id (placed order.id (log_intent order now o)).entries ≡ some (sent order now))
      × ((placed order.id (log_intent order now o)).store
          ≡ push o.store (record {
            ts = now;
            kind = order_submit_intent (serialize_order order);
            order_id = order.id;
          }))
      × ((placed order.id (log_intent order now o)).broker_id_to_order ≡ o.broker_id_to_order)
unfolding log_intent sent transition_entry
placed-log_intent order now o =
    let known = lookup-insert_self order.id (sent order now) o.entries in ground arith

pub sent-force_state :
    (order : Order) (now : ℕ)
    → ((sent order now)
        ≡ force_state submit submitted
            (record { order = order; fsm = order_machine pending; fills = [] }))
      × InStep (sent order now)
unfolding sent order_next
sent-force_state order now =
    transition-force_state order.id now submit submitted
      (record { order = order; fsm = order_machine pending; fills = [] }) refl refl

-- Where the broker's reply leaves an order.
abbrev pub state_after_reply : SubmitReply → OrderState
state_after_reply (takes _) = accepted
state_after_reply (rejects _) = rejected
state_after_reply unavailable = submitted

-- The row that a reply adds to the log.
abbrev push_reply : ℕ → ℕ → SubmitReply → List LoggedEvent → List LoggedEvent
push_reply id later (takes bid) rows =
    push rows (record { ts = later; kind = order_accepted bid; order_id = id })
push_reply id later (rejects reason) rows =
    push rows (record { ts = later; kind = order_rejected reason; order_id = id })
push_reply id later unavailable rows = rows

-- Reading the order back leaves the OMS as it is.
result_of_same :
    (id : ℕ) (bid : Option String) (b : Bool) (r : Option String) (o : Oms)
    → (result_of id bid b r o).1 ≡ o
result_of_same id bid b r o = ground arith

settle-moves :
    (id ts : ℕ) (ev : OrderEvent) (st : OrderState) (e : Entry) (o : Oms)
    → InStep e
    → order_next e.order.state ev ≡ some st
    → Keeps id st (settle id ev ts e o)
settle-moves id ts ev st e o step arc =
    let (moved, _) =
      transition-force_state id ts ev st e step.order_table (rw (← step.same_state) arc) in
    (force_state ev st e, rw moved (lookup-insert_self id (force_state ev st e) o.entries), refl)

module _ (id later : ℕ) (e : Entry) (o : Oms) (known : lookup id o.entries ≡ some e)
    (step : InStep e) (st : e.order.state ≡ submitted) where
  conclude-takes :
      (bid : String)
      → e.order.broker_order_id ≡ none
      → contains bid o.broker_id_to_order ≡ false
      → (conclude id later (takes bid) o).1
        ≡ settle id accept later
            (accepted_entry bid later e)
            (record (append_log id (order_accepted bid) later o) {
              broker_id_to_order = insert bid id o.broker_id_to_order;
            })
  unfolding record_accepted
  conclude-takes bid no_id free = ground arith

  conclude-rejects :
      (reason : String)
      → (conclude id later (rejects reason) o).1
        ≡ settle id reject later
            (rejected_entry reason e)
            (append_log id (order_rejected reason) later o)
  unfolding handle_rejection
  conclude-rejects reason = ground arith

  -- The reply to an order that is known and submitted.
  conclude-state :
      (reply : SubmitReply)
      → e.order.broker_order_id ≡ none
      → ((bid : String) → reply ≡ takes bid → contains bid o.broker_id_to_order ≡ false)
      → Keeps id (state_after_reply reply) (conclude id later reply o).1
  unfolding order_next
  conclude-state (takes bid) no_id free = rw (conclude-takes bid no_id (free bid refl)) (
      settle-moves id later accept accepted (accepted_entry bid later e)
        (record (append_log id (order_accepted bid) later o) {
          broker_id_to_order = insert bid id o.broker_id_to_order;
        })
        (record { same_state = step.same_state; order_table = step.order_table }) (rw st refl))
  conclude-state (rejects reason) no_id free = rw (conclude-rejects reason) (
      settle-moves id later reject rejected (rejected_entry reason e)
        (append_log id (order_rejected reason) later o)
        (record { same_state = step.same_state; order_table = step.order_table }) (rw st refl))
  conclude-state unavailable no_id free = (e, known, st)

submit_order-pending :
    (order : Order) (now later : ℕ) (reply : SubmitReply) (o : Oms)
    → order.state ≡ pending
    → (submit_order order now later [] reply o).1
      ≡ (conclude order.id later reply (placed order.id (log_intent order now o))).1
unfolding submit_order deliver
submit_order-pending order now later reply o st = ground arith

-- The rows that a submission adds to the log: the intent, then what the reply says.
abbrev pub store_after_reply : Order → ℕ → ℕ → SubmitReply → List LoggedEvent → List LoggedEvent
store_after_reply order now later reply rows =
    let intent : LoggedEvent = record {
      ts = now;
      kind = order_submit_intent (serialize_order order);
      order_id = order.id;
    } in
    push_reply order.id later reply (push rows intent)

conclude-store :
    (id later : ℕ) (reply : SubmitReply) (e : Entry) (o : Oms)
    → lookup id o.entries ≡ some e
    → InStep e
    → e.order.state ≡ submitted
    → e.order.broker_order_id ≡ none
    → ((bid : String) → reply ≡ takes bid → contains bid o.broker_id_to_order ≡ false)
    → (conclude id later reply o).1.store ≡ push_reply id later reply o.store
conclude-store id later (takes bid) e o known step st no_id free =
    rw (conclude-takes id later e o known step st bid no_id (free bid refl)) refl
conclude-store id later (rejects reason) e o known step st no_id free =
    rw (conclude-rejects id later e o known step st reason) refl
conclude-store id later unavailable e o known step st no_id free = refl

-- A pending order without a broker id, submitted to a broker that answers at once, with no callback
-- before, and with a broker id not seen before if it takes the order: it ends accepted, rejected or
-- (the broker being out of reach) submitted, as the reply says. The log has two rows more then, the
-- intent and, after it, the acceptance or the rejection; or the intent alone, where the broker is out
-- of reach.
pub submit_order-state :
    (order : Order) (now later : ℕ) (reply : SubmitReply) (o : Oms)
    → order.state ≡ pending
    → order.broker_order_id ≡ none
    → ((bid : String) → reply ≡ takes bid → contains bid o.broker_id_to_order ≡ false)
    → let o' = (submit_order order now later [] reply o).1 in
      Keeps order.id (state_after_reply reply) o'
      × (o'.store ≡ store_after_reply order now later reply o.store)
submit_order-state order now later reply o st no_id free =
    let before = placed order.id (log_intent order now o) in
    let (known, row, mapped) = placed-log_intent order now o in
    let (is_sent, step) = sent-force_state order now in
    let st' : (sent order now).order.state ≡ submitted = rw is_sent refl in
    let no_id' : (sent order now).order.broker_order_id ≡ none = rw is_sent no_id in
    let free' : (bid : String)
        → reply ≡ takes bid
        → contains bid before.broker_id_to_order ≡ false =
      λ bid e. rw mapped (free bid e) in
    let end = submit_order-pending order now later reply o st in
    (
      rw end
          (conclude-state order.id later (sent order now) before known step st' reply no_id' free'),
      rw end (
          conclude-store order.id later reply (sent order now) before known step st' no_id' free'
          ∙ ap (push_reply order.id later reply) row),
    )
